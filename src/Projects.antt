-- ===== src/Projects.antt =====
-- metadata.go `projectNameFromRemote`, `projectNameFromPath`, `agentDisplayName` and parser.go
-- `projectFor`: what a task's project is called. Paths, URLs, Unicode's letter cases and git are
-- parameters.
use Prim.Native.Char.{Char, code}
use Prim.Native.String.{len, slice, ◌++◌ as joined_text}
use codex_token_meter.Prelude.{
  ℕ, ◌-◌, String, Bool, true, not, ◌&&◌, ◌||◌, Option, none, some, List, [], ◌∷◌, any, map, ltb,
  leb, eqb, ◌==◌, text_eq, if◌then◌else◌,
}
use codex_token_meter.Display.{Unicode, chars, text, trim_start, trim_end, clean_display_name}
use codex_token_meter.Ident.{codes, stable_id}

-- `filepath`, `url.Parse(s).Path`, `strings.ToLower`, `strings.EqualFold`, and the answers of
-- `git rev-parse --show-toplevel` and `git config --get remote.origin.url` in a directory.
pub record Platform : Type 0 where
  pub unicode : Unicode
  pub base : String → String
  pub clean : String → String
  pub dir : String → String
  pub to_slash : String → String
  pub to_lower : String → String
  pub equal_fold : String → String → Bool
  pub url_path : String → Option String
  pub git_toplevel : String → Option String
  pub git_remote : String → Option String

abbrev pub generic_project_names : List String
generic_project_names = "" ∷ "." ∷ "repo" ∷ "root" ∷ "workspace" ∷ "worktree" ∷ []

unfoldable pub is_generic : String → Bool
is_generic name = any (λ n. n == name) generic_project_names

-- `^\d+$`.
abbrev digits_only : List ℕ → Bool
digits_only [] = true
digits_only (c ∷ cs) = leb b'0' c && leb c b'9' && digits_only cs

unfoldable pub is_number : String → Bool
is_number s = not (s == "") && digits_only (codes s)

-- `strings.TrimSuffix`.
unfoldable pub trim_suffix : String → String → String
trim_suffix s suffix =
    if leb (len suffix) (len s) && slice s (len s - len suffix) (len s) == suffix
    then slice s 0 (len s - len suffix)
    else s

-- `at := strings.LastIndex(s, ":")` and `s[at+1:]`.
unfoldable pub after_colon : List Char → Option (List Char)
after_colon [] = none
after_colon (c ∷ cs) = later (after_colon cs)
  where
    later : Option (List Char) → Option (List Char)
    later (some rest) = some rest
    later none = if eqb (code c) b':' then some cs else none

abbrev pub or_text : Option (List Char) → String → String
or_text (some cs) s = text cs
or_text none s = s

-- `strings.ReplaceAll` of one character by a blank.
abbrev pub spaced : ℕ → String → String
spaced c s = text (map (λ d. if eqb (code d) c then " " else d) (chars s))

module _ (pf : Platform) where
  unfoldable pub trim_space : String → String
  unfolding trim_start trim_end
  trim_space s = text (trim_end pf.unicode (trim_start pf.unicode (chars s)))

  -- The path of a remote: that of its URL, or what stands behind its last colon.
  unfoldable pub remote_path : Option String → String → String
  unfolding after_colon
  remote_path none remote = or_text (after_colon (chars remote)) remote
  remote_path (some path) remote =
      if path == "" then or_text (after_colon (chars remote)) remote else path

  unfoldable pub project_name_from_remote : String → String
  unfolding trim_space trim_suffix remote_path clean_display_name
  project_name_from_remote url =
      let remote = trim_space (trim_suffix url "/") in
      let name = pf.base (pf.to_slash (remote_path (pf.url_path remote) remote)) in
      if remote == "" then "" else clean_display_name pf.unicode (trim_suffix name ".git") 100

  unfoldable pub project_name_from_path : String → String
  unfolding trim_space is_generic is_number clean_display_name
  project_name_from_path path =
      let name = pf.base (pf.clean path) in
      let parent = pf.to_lower (pf.base (pf.dir (pf.clean path))) in
      if trim_space path == ""
      then ""
      else if parent == "users" || parent == "home"
      then ""
      else if is_generic (pf.to_lower name) || is_number name
      then ""
      else clean_display_name pf.unicode name 100

  unfoldable pub agent_display_name : String → String → String
  unfolding project_name_from_path
  agent_display_name agent_path nickname =
      let name =
        clean_display_name pf.unicode
          (spaced b'-' (spaced b'_' (project_name_from_path agent_path))) 80 in
      let nick = clean_display_name pf.unicode nickname 40 in
      if not (name == "") && not (nick == "") && not (pf.equal_fold name nick)
      then joined_text name (joined_text " · " nick)
      else if not (name == "")
      then name
      else nick

  -- The repository's name and what identifies it, from git's two answers.
  unfoldable pub named_by_remote : String → Option String → String × String
  unfolding trim_space project_name_from_remote
  named_by_remote root none = (pf.base root, pf.base root)
  named_by_remote root (some remote) =
      let identity = trim_space remote in
      let name = project_name_from_remote identity in
      if ltb (len remote) 2048
      then (if name == "" then pf.base root else name, identity)
      else (pf.base root, pf.base root)

  unfoldable pub named_by_git : String → Option String → String × String
  unfolding trim_space named_by_remote
  named_by_git cwd none = (pf.base (pf.clean cwd), pf.base (pf.clean cwd))
  named_by_git cwd (some out) =
      let root = trim_space out in named_by_remote root (pf.git_remote root)

  -- The project's id and the repository's name.
  unfoldable pub project_for : (List ℕ → String) → String → String × String
  unfolding named_by_git is_generic
  project_for sha256_hex cwd =
      let (repo, identity) = named_by_git cwd (pf.git_toplevel cwd) in
      (
        slice (stable_id sha256_hex (codes identity ∷ [])) 0 16,
        if is_generic (pf.to_lower repo) then "" else repo,
      )
