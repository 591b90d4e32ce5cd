-- ===== src/Version/Tests.antt =====
-- Runs of config-api/app/version.py on small file systems.
use pa_sso_proxy.Prelude.{◌≡◌, ◌<◌, refl, length, if◌then◌else◌}
use pa_sso_proxy.Unicode.{Text, text_eq, strip, strip_front, strip_back, split, add_char, is_space}
use pa_sso_proxy.PipFix.Codes.{codes}
use pa_sso_proxy.Version.{
  File, absent, content, exists, first_chars, join, starts_with_ref, second_part, packed_line,
  packed_commit, packed_hash, packed_ref, ref_hash, head_hash, git_dir_of, get_git_hash,
  local_version, baked, get_display_version, get_release_version,
}
use pa_sso_proxy.Version.Shown.{Displayed, get_display_version-Displayed}

-- A checkout whose reference is packed.
abbrev files : Text → File
files path =
    if text_eq path (codes "/src/.git/HEAD")
    then content (codes "ref: refs/heads/main\n")
    else if text_eq path (codes "/src/.git/packed-refs")
    then content (codes "# pack-refs\n0123456789abcdef refs/heads/main\n")
    else absent

packed_commit_shown : get_display_version files (codes "/src/.git") ≡ codes "0123456"
unfolding codes get_display_version baked get_git_hash git_dir_of exists head_hash ref_hash
    packed_ref packed_hash packed_line packed_commit starts_with_ref second_part local_version
    first_chars join text_eq strip strip_front strip_back split add_char is_space
packed_commit_shown = refl

get_display_version-Displayed_example :
    Displayed (get_display_version files (codes "/src/.git"))
    × (0 < length (get_release_version files (codes "/src/.git")))
get_display_version-Displayed_example = get_display_version-Displayed files (codes "/src/.git")
