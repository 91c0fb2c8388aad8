-- ===== src/Sync/Remote.antt =====
-- packages/core/src/remoteVisibility.ts, and the checks of packages/core/src/githubCredential.ts
-- that the sync makes. `new URL` and `fetch` are parameters.
use caveat.Common.{
  ℕ, Bool, true, false, not, ◌&&◌, ◌||◌, Option, none, some, List, [], ◌∷◌, ◌++◌, Text, codes,
  if◌then◌else◌, leb, nat_beq, length, is_space, trim, list_eq, nat_eq, ◌==◌,
}
use caveat.AutoSync.{
  github_user_invalid, github_target_unsupported, sync_error, RemoteAccess, anonymous_readable,
  denied, indeterminate, probe_request_failed_reason,
}
use caveat.Sync.{Answer, gave, threw, Url, Sync, ensure, done, ◌>>◌}

-- `.` of a pattern stops at these.
abbrev pub is_line_end : ℕ → Bool
is_line_end c = nat_beq c 10 || nat_beq c 13 || nat_beq c 0x2028 || nat_beq c 0x2029

-- `(.+)$`: the rest of the text, on one line.
abbrev rest_of_line : Text → Option Text
rest_of_line [] = none
rest_of_line (c ∷ []) = if is_line_end c then none else some (c ∷ [])
rest_of_line (c ∷ d ∷ cs) = elim (rest_of_line (d ∷ cs)) [
  | none ↦ none
  | some rest ↦ if is_line_end c then none else some (c ∷ rest)
]

abbrev with_host : ℕ → Option (Text × Text) → Option (Text × Text)
with_host c none = none
with_host c (some (host, path)) = some (c ∷ host, path)

-- `([^:/\s]+):(.+)$`; the flag says that a character of the host was read.
abbrev scp_host : Bool → Text → Option (Text × Text)
scp_host read [] = none
scp_host read (c ∷ cs) =
    let next = with_host c (scp_host true cs) in
    let path : Option (Text × Text) = elim (rest_of_line cs) [
      | none ↦ none
      | some rest ↦ some ([], rest)
    ] in
    if nat_beq c 58
    then (if read then path else none)
    else if nat_beq c 47 || is_space c
    then none
    else next

-- What is behind `[^@/\s]+@`.
abbrev scp_user : Bool → Text → Option Text
scp_user read [] = none
scp_user read (c ∷ cs) =
    let next = scp_user true cs in
    if nat_beq c 64
    then (if read then some cs else none)
    else if nat_beq c 47 || is_space c
    then none
    else next

abbrev or_plain : Text → Option (Text × Text) → Option (Text × Text)
or_plain url (some found) = some found
or_plain url none = scp_host false url

-- The match of `/^(?:[^@/\s]+@)?([^:/\s]+):(.+)$/`.
unfoldable pub scp_parts : Text → Option (Text × Text)
scp_parts url = elim (scp_user false url) [
  | none ↦ scp_host false url
  | some behind ↦ or_plain url (scp_host false behind)
]

abbrev https : Text
https = codes "https:"

-- `https://${host}…` out of the parts of a URL.
abbrev anonymous_url : Url → Text
anonymous_url url = codes "https://" ++ (url.host ++ (url.pathname ++ (url.search ++ url.hash)))

abbrev href_of : Option Url → Option Text
href_of none = none
href_of (some url) = some url.href

abbrev of_scp : (Text → Option Url) → Option (Text × Text) → Option Text
of_scp parse none = none
of_scp parse (some (host, path)) =
    href_of (parse (codes "https://" ++ (host ++ (codes "/" ++ path))))

abbrev of_url : Url → Option Text
of_url url =
    if url.protocol == https || url.protocol == codes "ssh:" then some (anonymous_url url) else none

-- `deriveAnonymousProbeUrl`
unfoldable pub derive_anonymous_probe_url : (Text → Option Url) → Text → Option Text
unfolding scp_parts
derive_anonymous_probe_url parse remote = elim (parse remote) [
  | none ↦ of_scp parse (scp_parts remote)
  | some url ↦ of_url url
]

-- What `fetch` gives: the status and the content type.
pub record Response : Type 0 where
  pub status : ℕ
  pub content_type : Option Text

abbrev pub before_semicolon : Text → Text
before_semicolon [] = []
before_semicolon (c ∷ cs) = if nat_beq c 59 then [] else c ∷ before_semicolon cs

abbrev pub git_advertisement : Text
git_advertisement = codes "application/x-git-upload-pack-advertisement"

abbrev pub is_advertisement : (lower : Text → Text) → Option Text → Bool
is_advertisement lower none = false
is_advertisement lower (some header) = lower (trim (before_semicolon header)) == git_advertisement

abbrev pub is_denial : ℕ → Bool
is_denial status = nat_beq status 401 || nat_beq status 404

-- `response.ok`
abbrev pub is_ok : ℕ → Bool
is_ok status = leb 200 status && leb status 299

unfoldable pub response_access :
    (lower : Text → Text) (decimal : ℕ → Text) → Response → RemoteAccess
response_access lower decimal r =
    if is_denial r.status
    then denied r.status
    else if not (is_ok r.status)
    then indeterminate (codes "unexpected HTTP status " ++ decimal r.status)
    else if not (is_advertisement lower r.content_type)
    then indeterminate (codes "missing Git smart-HTTP advertisement content type")
    else anonymous_readable

abbrev pub fetched_access :
    (lower : Text → Text) (decimal : ℕ → Text) → Option Response → RemoteAccess
fetched_access lower decimal none = indeterminate probe_request_failed_reason
fetched_access lower decimal (some r) = response_access lower decimal r

abbrev pub last_is_slash : Text → Bool
last_is_slash [] = false
last_is_slash (c ∷ []) = nat_beq c 47
last_is_slash (c ∷ d ∷ cs) = last_is_slash (d ∷ cs)

-- `ensureTrailingSlash`
unfoldable pub ensure_trailing_slash : Text → Text
ensure_trailing_slash url = if last_is_slash url then url else url ++ codes "/"

abbrev pub upload_pack : Text
upload_pack = codes "info/refs?service=git-upload-pack"

-- The request, where `new URL` makes the endpoint; its own throw is outside the `try`.
abbrev pub requested :
    (lower : Text → Text) (decimal : ℕ → Text) (fetch : Text → Option Response)
    → Option Text
    → Answer RemoteAccess
requested lower decimal fetch none = threw none
requested lower decimal fetch (some endpoint) = gave (fetched_access lower decimal (fetch endpoint))

unfoldable pub probe_url :
    (lower : Text → Text) (decimal : ℕ → Text) (new_url : (relative base : Text) → Option Text)
    (fetch : Text → Option Response)
    → Text
    → Answer RemoteAccess
unfolding response_access ensure_trailing_slash
probe_url lower decimal new_url fetch [] =
    gave (indeterminate (codes "remote URL cannot be probed anonymously"))
probe_url lower decimal new_url fetch (c ∷ cs) =
    requested lower decimal fetch (new_url upload_pack (ensure_trailing_slash (c ∷ cs)))

-- `probeAnonymousRead`; `new_url` is `new URL(relative, base)`, and `fetch` may throw.
unfoldable pub probe_anonymous_read :
    (lower : Text → Text) (decimal : ℕ → Text) (new_url : (relative base : Text) → Option Text)
    (fetch : Text → Option Response)
    → Option Text
    → Answer RemoteAccess
unfolding probe_url
probe_anonymous_read lower decimal new_url fetch none = probe_url lower decimal new_url fetch []
probe_anonymous_read lower decimal new_url fetch (some url) =
    probe_url lower decimal new_url fetch url

abbrev is_alnum : ℕ → Bool
is_alnum c = (leb 48 c && leb c 57) || (leb 65 c && leb c 90) || (leb 97 c && leb c 122)

-- `[A-Za-z0-9]+(?:-[A-Za-z0-9]+)*$`; the flag says that the character before was no dash.
abbrev user_words : Bool → Text → Bool
user_words read [] = read
user_words read (c ∷ cs) =
    let word = user_words true cs in
    let dash = user_words false cs in if is_alnum c then word else nat_beq c 45 && read && dash

-- `validateGithubUser` on a text: whether it is passed back. The pattern admits no space at an end.
unfoldable pub is_github_user : Text → Bool
is_github_user user = leb (length user) 39 && (user == trim user) && user_words false user

abbrev is_empty : Text → Bool
is_empty [] = true
is_empty (c ∷ cs) = false

abbrev is_github_url : Option Url → Bool
is_github_url none = false
is_github_url (some url) =
    (url.protocol == https)
    && (url.hostname == codes "github.com")
    && is_empty url.username
    && is_empty url.password

-- The loop of `assertNamedGithubTargets`.
unfoldable pub assert_targets : (Text → Option Url) → List Text → Sync (Unit {0})
assert_targets parse [] = done tt
assert_targets parse (url ∷ urls) =
    ensure (is_github_url (parse url)) (sync_error github_target_unsupported)
    >> assert_targets parse urls

-- `assertNamedGithubTargets`
unfoldable pub assert_named_github_targets :
    (Text → Option Url) → List Text → Option Text → Sync (Unit {0})
unfolding is_github_user assert_targets
assert_named_github_targets parse urls none = done tt
assert_named_github_targets parse urls (some user) =
    ensure (is_github_user user) (sync_error github_user_invalid) >> assert_targets parse urls
