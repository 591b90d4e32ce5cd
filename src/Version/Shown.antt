-- ===== src/Version/Shown.antt =====
-- The texts that the functions of config-api/app/version.py return.
use pa_sso_proxy.Prelude.{
  ℕ, zero, suc, ◌≤◌, ◌<◌, ◌≡◌, refl, inl, inr, true, false, none, some, List, [], ◌∷◌, ◌==◌, arith,
  length, Bool-cases, Option-cases,
}
use pa_sso_proxy.Unicode.{Text, strip, split}
use pa_sso_proxy.PipFix.Codes.{codes}
use pa_sso_proxy.Version.{
  File, absent, unreadable, content, first_chars, join, starts_with_ref, second_part, packed_line,
  packed_hash, packed_ref, ref_hash, head_hash, git_dir_of, get_git_hash, is_full_sha,
  local_version, baked, get_display_version, get_release_version,
}

first_chars-length : (k : ℕ) (t : Text) → length (first_chars k t) ≤ k
unfolding first_chars
first_chars-length zero t = omega arith
first_chars-length (suc k) [] = omega arith
first_chars-length (suc k) (c ∷ cs) = omega (arith, first_chars-length k cs)

packed_hash-length : (ref : Text) (lines : List Text) → length (packed_hash ref lines) ≤ 7
unfolding packed_hash
packed_hash-length ref [] = omega arith
packed_hash-length ref (line ∷ lines) = elim (Option-cases (packed_line ref (strip line))) [
  | inl e ↦ rw (packed_hash, e) (packed_hash-length ref lines)
  | inr (commit, e) ↦ rw (packed_hash, e) (first_chars-length 7 commit)
]

module _ (files : Text → File) where
  packed_ref-length : (dir ref : Text) → length (packed_ref files dir ref) ≤ 7
  unfolding packed_ref
  packed_ref-length dir ref = go (files (join dir (codes "packed-refs")))
    where
      go :
          (f : File)
          → length (elim f [
            | absent ↦ []
            | unreadable ↦ []
            | content t ↦ packed_hash ref (split (λ d. d == b'\n') t)
          ])
            ≤ 7
      go absent = omega arith
      go unreadable = omega arith
      go (content t) = packed_hash-length ref (split (λ d. d == b'\n') t)

  ref_hash-length : (dir ref : Text) → length (ref_hash files dir ref) ≤ 7
  unfolding ref_hash
  ref_hash-length dir ref = go (files (join dir ref))
    where
      go :
          (f : File)
          → length (elim f [
            | absent ↦ packed_ref files dir ref
            | unreadable ↦ []
            | content t ↦ first_chars 7 (strip t)
          ])
            ≤ 7
      go absent = packed_ref-length dir ref
      go unreadable = omega arith
      go (content t) = first_chars-length 7 (strip t)

  head_hash-length : (dir head : Text) → length (head_hash files dir head) ≤ 7
  unfolding head_hash
  head_hash-length dir head = elim (Bool-cases (starts_with_ref head)) [
    | inr f ↦ rw f (first_chars-length 7 head)
    | inl t ↦ elim (Option-cases (second_part (split (λ d. d == b' ') head))) [
      | inl e ↦ rw (t, e) (omega arith)
      | inr (ref, e) ↦ rw (t, e) (ref_hash-length dir ref)
    ]
  ]

-- Whatever the files hold, the commit is cut to at most seven characters.
pub get_git_hash-length :
    (files : Text → File) (checkout : Text) → length (get_git_hash files checkout) ≤ 7
unfolding get_git_hash
get_git_hash-length files checkout = go (files (join (git_dir_of files checkout) (codes "HEAD")))
  where
    go :
        (f : File)
        → length (elim f [
          | absent ↦ []
          | unreadable ↦ []
          | content t ↦ head_hash files (git_dir_of files checkout) (strip t)
        ])
          ≤ 7
    go absent = omega arith
    go unreadable = omega arith
    go (content t) = head_hash-length files (git_dir_of files checkout) (strip t)

-- Neither empty nor the hash of a commit in full.
unfoldable pub Displayed : Text → Type 0
Displayed t = (0 < length t) × (is_full_sha t ≡ false)

baked_filled :
    (files : Text → File) (path version : Text)
    → baked files path ≡ some version
    → 0 < length version
unfolding baked
baked_filled files path version h = go (files path) h
  where
    stripped :
        (t : Text)
        → (elim t [ [] ↦ none | c ∷ cs ↦ some (c ∷ cs) ]) ≡ some version
        → 0 < length version
    stripped [] e = absurd (ground arith)
    stripped (c ∷ cs) e = ground arith

    go :
        (f : File)
        → (elim f [
          | absent ↦ none
          | unreadable ↦ none
          | content t ↦ (elim (strip t) [ [] ↦ none | c ∷ cs ↦ some (c ∷ cs) ])
        ])
          ≡ some version
        → 0 < length version
    go absent e = absurd (ground arith)
    go unreadable e = absurd (ground arith)
    go (content t) e = stripped (strip t) e

local_version-Displayed : (hash : Text) → length hash ≤ 7 → Displayed (local_version hash)
unfolding Displayed local_version is_full_sha codes
local_version-Displayed [] h = (omega arith, refl)
local_version-Displayed (c ∷ cs) h = (omega arith, ground arith)

seven : (t : Text) → is_full_sha t ≡ true → Displayed (first_chars 7 t)
unfolding Displayed is_full_sha first_chars
seven [] h = absurd (ground arith)
seven (c ∷ cs) h = (omega arith, ground (arith, first_chars-length 6 cs))

-- The version that is shown is never empty and never the full hash of a commit, and the release is
-- never empty, whatever the files hold and whichever of them can be read.
pub get_display_version-Displayed :
    (files : Text → File) (checkout : Text)
    → Displayed (get_display_version files checkout)
      × (0 < length (get_release_version files checkout))
unfolding get_display_version get_release_version Displayed
get_display_version-Displayed files checkout = (
  shown,
  elim (Option-cases (baked files (codes "/app/app_release.txt"))) [
    | inl e ↦ rw (get_release_version, e) shown.0
    | inr (release, e) ↦
        rw (get_release_version, e) (baked_filled files (codes "/app/app_release.txt") release e)
  ],
)
  where
    shown : Displayed (get_display_version files checkout)
    shown = elim (Option-cases (baked files (codes "/app/app_version.txt"))) [
      | inl e ↦
          rw (get_display_version, e)
            (local_version-Displayed (get_git_hash files checkout)
              (get_git_hash-length files checkout))
      | inr (version, e) ↦ elim (Bool-cases (is_full_sha version)) [
        | inl full ↦ rw (get_display_version, e, full) (seven version full)
        | inr short ↦
            rw (get_display_version, e, short)
              (baked_filled files (codes "/app/app_version.txt") version e, short)
      ]
    ]
