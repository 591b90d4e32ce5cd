-- ===== src/Version.antt =====
-- The version that config-api shows and reports: config-api/app/version.py. A text or a path is the
-- list of its code points, and `files` is the file system while a function runs.
pub mod Shown
mod Tests
use pa_sso_proxy.Prelude.{
  ℕ, zero, suc, String, Bool, true, false, not, ◌&&◌, ◌||◌, Option, none, some, List, [], ◌∷◌, ◌++◌,
  ◌==◌, leb, map, length, if◌then◌else◌,
}
use pa_sso_proxy.Unicode.{Text, text_eq, to_lower, strip, split}
use pa_sso_proxy.PipFix.Codes.{codes}

-- A path that does not exist, one that exists and whose reading raises (a directory does), or a file
-- with its text.
pub data File : Type 0 where
  absent unreadable : File
  content : Text → File

unfoldable pub exists : File → Bool
exists absent = false
exists unreadable = true
exists (content t) = true

unfoldable pub first_chars : ℕ → Text → Text
first_chars zero t = []
first_chars (suc k) [] = []
first_chars (suc k) (c ∷ cs) = c ∷ first_chars k cs

-- os.path.join on a directory without a slash at its end
unfoldable pub join : Text → Text → Text
join dir [] = dir ++ b'/' ∷ []
join dir (c ∷ cs) = if c == b'/' then c ∷ cs else dir ++ b'/' ∷ c ∷ cs

unfoldable pub starts_with_ref : Text → Bool
starts_with_ref (a ∷ b ∷ c ∷ d ∷ rest) = a == b'r' && (b == b'e' && (c == b'f' && d == b':'))
starts_with_ref t = false

-- `split(" ")[1]`, none where it raises
unfoldable pub second_part : List Text → Option Text
second_part (a ∷ b ∷ rest) = some b
second_part parts = none

-- The commit of a line of packed-refs that names the reference.
unfoldable pub packed_commit : Text → List Text → Option Text
unfolding text_eq
packed_commit ref (commit ∷ name ∷ []) = if text_eq name ref then some commit else none
packed_commit ref parts = none

unfoldable pub packed_line : Text → Text → Option Text
unfolding packed_commit split
packed_line ref [] = none
packed_line ref (c ∷ cs) =
    if c == b'#' then none else packed_commit ref (split (λ d. d == b' ') (c ∷ cs))

unfoldable pub packed_hash : Text → List Text → Text
unfolding packed_line first_chars strip
packed_hash ref [] = []
packed_hash ref (line ∷ lines) = elim (packed_line ref (strip line)) [
  | none ↦ packed_hash ref lines
  | some commit ↦ first_chars 7 commit
]

unfoldable pub is_hexadecimal : ℕ → Bool
is_hexadecimal c = (leb b'0' c && leb c b'9') || (leb b'a' c && leb c b'f')

unfoldable pub all_hexadecimal : Text → Bool
unfolding is_hexadecimal
all_hexadecimal [] = true
all_hexadecimal (c ∷ cs) = is_hexadecimal c && all_hexadecimal cs

unfoldable pub is_full_sha : Text → Bool
unfolding all_hexadecimal to_lower
is_full_sha version = length version == 40 && all_hexadecimal (map to_lower version)

unfoldable pub local_version : Text → Text
unfolding codes
local_version [] = codes "local"
local_version (c ∷ cs) = c ∷ cs

module _ (files : Text → File) where
  unfoldable pub packed_ref : Text → Text → Text
  unfolding packed_hash join codes split
  packed_ref git_dir ref = elim (files (join git_dir (codes "packed-refs"))) [
    | absent ↦ []
    | unreadable ↦ []
    | content t ↦ packed_hash ref (split (λ d. d == b'\n') t)
  ]

  unfoldable pub ref_hash : Text → Text → Text
  unfolding packed_ref join first_chars strip
  ref_hash git_dir ref = elim (files (join git_dir ref)) [
    | absent ↦ packed_ref git_dir ref
    | unreadable ↦ []
    | content t ↦ first_chars 7 (strip t)
  ]

  unfoldable pub head_hash : Text → Text → Text
  unfolding ref_hash starts_with_ref second_part first_chars split
  head_hash git_dir head =
      if starts_with_ref head
      then (elim (second_part (split (λ d. d == b' ') head)) [
        | none ↦ []
        | some ref ↦ ref_hash git_dir ref
      ])
      else first_chars 7 head

  -- `.git` of the container, or else of the checkout.
  unfoldable pub git_dir_of : Text → Text
  unfolding codes exists
  git_dir_of checkout = if exists (files (codes "/app/.git")) then codes "/app/.git" else checkout

  unfoldable pub get_git_hash : Text → Text
  unfolding head_hash git_dir_of join codes strip
  get_git_hash checkout = elim (files (join (git_dir_of checkout) (codes "HEAD"))) [
    | absent ↦ []
    | unreadable ↦ []
    | content t ↦ head_hash (git_dir_of checkout) (strip t)
  ]

  -- The baked version, without white space around it, none for a file that says nothing.
  unfoldable pub baked : Text → Option Text
  unfolding strip
  baked path = elim (files path) [
    | absent ↦ none
    | unreadable ↦ none
    | content t ↦ (elim (strip t) [ [] ↦ none | c ∷ cs ↦ some (c ∷ cs) ])
  ]

  unfoldable pub get_display_version : Text → Text
  unfolding baked codes is_full_sha first_chars local_version get_git_hash
  get_display_version checkout = elim (baked (codes "/app/app_version.txt")) [
    | none ↦ local_version (get_git_hash checkout)
    | some version ↦ if is_full_sha version then first_chars 7 version else version
  ]

  unfoldable pub get_release_version : Text → Text
  unfolding baked codes get_display_version
  get_release_version checkout = elim (baked (codes "/app/app_release.txt")) [
    | none ↦ get_display_version checkout
    | some release ↦ release
  ]
