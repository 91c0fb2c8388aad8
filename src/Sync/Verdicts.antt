-- ===== src/Sync/Verdicts.antt =====
-- `probeAnonymousRead` of packages/core/src/remoteVisibility.ts.
use caveat.Common.{
  ℕ, ◌≡◌, ◌≤◌, ◌<◌, ◌↔◌, ◌⊎◌, refl, ap, ◌∙◌, true, false, Option, none, some, List, [], ◌∷◌, ◌++◌,
  Text, codes, if◌then◌else◌, Bool-cases, inl, inr, arith, nat_beq, nat_beq_iff, list_beq_iff,
  split, grow, trim, append_assoc, list_eq, nat_eq,
}
use caveat.AutoSync.{
  RemoteAccess, anonymous_readable, denied, indeterminate, probe_request_failed_reason,
}
use caveat.Sync.{gave, threw}
use caveat.Sync.Remote.{
  Response, requested, fetched_access, is_denial, is_ok, before_semicolon, is_advertisement,
  response_access, last_is_slash, ensure_trailing_slash, upload_pack, git_advertisement,
  probe_anonymous_read,
}

abbrev first : List Text → Text
first [] = []
first (part ∷ parts) = part

-- The part of a content type before its parameters.
abbrev pub media_type : Text → Text
media_type header = first (split (λ c. nat_beq c 59) header)

-- Git's smart protocol answers a reader without credentials.
pub record IsServed (lower : Text → Text) (r : Response) : Type 0 where
  pub from : 200 ≤ r.status
  pub below : r.status < 300
  pub header : Text
  pub typed : r.content_type ≡ some header
  pub git : lower (trim (media_type header)) ≡ codes "application/x-git-upload-pack-advertisement"

-- The server answers a reader without credentials with this status of refusal.
pub record IsRefused (status : ℕ) (r : Response) : Type 0 where
  pub same : r.status ≡ status
  pub refusal : (status ≡ 401) ⊎ (status ≡ 404)

-- The URL that ends in this unit, with a slash at its end.
abbrev pub with_slash : Text → ℕ → Text
with_slash stem c = if nat_beq c 47 then stem ++ c ∷ [] else stem ++ c ∷ 47 ∷ []

-- The response to a request for this endpoint, if there is one of them.
abbrev pub Answers : (Text → Option Response) → Option Text → (Response → Type 0) → Type 0
Answers fetch endpoint P =
    (e : Text) × (r : Response) × (endpoint ≡ some e) × (fetch e ≡ some r) × P r

first-grow : (c : ℕ) (parts : List Text) → first (grow c parts) ≡ c ∷ first parts
first-grow c [] = refl
first-grow c (part ∷ parts) = refl

before_semicolon-media_type : (header : Text) → before_semicolon header ≡ media_type header
before_semicolon-media_type [] = refl
before_semicolon-media_type (c ∷ cs) = elim (Bool-cases (nat_beq c 59)) [
  | inl e ↦ rw e refl
  | inr e ↦ rw (e, first-grow c (split (λ c. nat_beq c 59) cs), before_semicolon-media_type cs) refl
]

last_is_slash-append : (stem : Text) (c : ℕ) → last_is_slash (stem ++ c ∷ []) ≡ nat_beq c 47
last_is_slash-append [] c = refl
last_is_slash-append (d ∷ []) c = refl
last_is_slash-append (d ∷ e ∷ ds) c = last_is_slash-append (e ∷ ds) c

ensure_trailing_slash-with_slash :
    (stem : Text) (c : ℕ) → ensure_trailing_slash (stem ++ c ∷ []) ≡ with_slash stem c
unfolding ensure_trailing_slash
ensure_trailing_slash-with_slash stem c =
    rw (last_is_slash-append stem c, append_assoc stem (c ∷ []) (codes "/")) refl

is_denial-IsRefused : (s : ℕ) → is_denial s ≡ true → (s ≡ 401) ⊎ (s ≡ 404)
is_denial-IsRefused s d = ground (arith, nat_beq_iff s 401, nat_beq_iff s 404)

IsRefused-is_denial : (s : ℕ) → (s ≡ 401) ⊎ (s ≡ 404) → is_denial s ≡ true
IsRefused-is_denial s (inl e) = rw e refl
IsRefused-is_denial s (inr e) = rw e refl

in_range-denial : (s : ℕ) → 200 ≤ s → s < 300 → is_denial s ≡ false
in_range-denial s from below = ground (arith, nat_beq_iff s 401, nat_beq_iff s 404)

module _ (lower : Text → Text) (decimal : ℕ → Text) where
  is_advertisement-typed :
      (content_type : Option Text)
      → is_advertisement lower content_type ≡ true
      → (header : Text) × (content_type ≡ some header)
        × (lower (trim (media_type header)) ≡ git_advertisement)
  is_advertisement-typed none a = cc
  is_advertisement-typed (some header) a = (
    header,
    refl,
    rw⁻¹ (before_semicolon-media_type header)
        ((list_beq_iff (lower (trim (before_semicolon header))) git_advertisement).0 a),
  )

  typed-is_advertisement :
      (header : Text)
      → lower (trim (media_type header)) ≡ git_advertisement
      → is_advertisement lower (some header) ≡ true
  typed-is_advertisement header e =
      rw (before_semicolon-media_type header)
        ((list_beq_iff (lower (trim (media_type header))) git_advertisement).1 e)

  response_access-readable :
      (r : Response) → (response_access lower decimal r ≡ anonymous_readable) ↔ IsServed lower r
  unfolding response_access
  response_access-readable r = (
    λ e.
        let good : (is_ok r.status ≡ true) × (is_advertisement lower r.content_type ≡ true) =
          ground arith in
        let (header, typed, git) = is_advertisement-typed r.content_type good.1 in
        let ok = good.0 in
        record {
          from = ground arith;
          below = ground arith;
          header = header;
          typed = typed;
          git = git;
        },
    λ s.
        let denies = in_range-denial r.status s.from s.below in
        let ok : is_ok r.status ≡ true = ground (arith, s.from, s.below) in
        let a : is_advertisement lower r.content_type ≡ true =
          rw s.typed (typed-is_advertisement s.header s.git) in
        rw (denies, ok, a) refl,
  )

  response_access-denied :
      (r : Response) (status : ℕ)
      → (response_access lower decimal r ≡ denied status) ↔ IsRefused status r
  unfolding response_access
  response_access-denied r status = elim (Bool-cases (is_denial r.status)) [
    | inl d ↦ (
      λ e.
          let same : r.status ≡ status = ground arith in
          record { same = same; refusal = rw⁻¹ same (is_denial-IsRefused r.status d) },
      λ s. rw (d, s.same) refl,
    )
    | inr d ↦ (
      λ e. absurd (ground arith),
      λ s. let yes = IsRefused-is_denial status s.refusal in absurd (ground (arith, s.same)),
    )
  ]

  module _ (fetch : Text → Option Response) (v : RemoteAccess) (P : Response → Type 0)
      (clear : (reason : Text) → ¬ (indeterminate reason ≡ v))
      (reads : (r : Response) → (response_access lower decimal r ≡ v) ↔ P r) where
    fetched_access_iff :
        (e : Text) (a : Option Response)
        → fetch e ≡ a
        → (gave (fetched_access lower decimal a) ≡ gave v) ↔ Answers fetch (some e) P
    fetched_access_iff e none h =
        (λ q. absurd (clear probe_request_failed_reason cc), λ (e', r, q, f, p). cc)
    fetched_access_iff e (some r) h = (
      λ q. (e, r, refl, h, (reads r).0 cc),
      λ (e', r', q, f, p).
          let same : r ≡ r' = cc in
          ap gave (ap (response_access lower decimal) same ∙ (reads r').1 p),
    )

    requested_iff :
        (endpoint : Option Text)
        → (requested lower decimal fetch endpoint ≡ gave v) ↔ Answers fetch endpoint P
    requested_iff none = (λ q. cc, λ (e, r, q, f, p). cc)
    requested_iff (some e) = fetched_access_iff e (fetch e) refl

  requested-threw :
      (fetch : Text → Option Response) (endpoint : Option Text)
      → (requested lower decimal fetch endpoint ≡ threw none) ↔ (endpoint ≡ none)
  requested-threw fetch none = (λ q. refl, λ q. refl)
  requested-threw fetch (some e) = (λ q. cc, λ q. cc)

module _ (lower : Text → Text) (decimal : ℕ → Text) (new_url : (relative base : Text) → Option Text)
    (fetch : Text → Option Response) where
  probe-requested :
      (stem : Text) (c : ℕ)
      → probe_anonymous_read lower decimal new_url fetch (some (stem ++ c ∷ []))
        ≡ requested lower decimal fetch (new_url upload_pack (with_slash stem c))
  unfolding probe_anonymous_read
  probe-requested [] c = rw⁻¹ (ensure_trailing_slash-with_slash [] c) refl
  probe-requested (d ∷ ds) c = rw⁻¹ (ensure_trailing_slash-with_slash (d ∷ ds) c) refl

  -- The probe of a URL that is not empty throws exactly when `new URL` does, on Git's smart protocol
  -- below the URL with a slash at its end. It finds the repository anonymously readable exactly when
  -- the endpoint answers with a status from 200 to 299 and the content type of that protocol,
  -- parameters aside; and denied with a status exactly when the endpoint answers with that status
  -- and it is 401 or 404.
  pub probe_anonymous_read-verdict :
      (stem : Text) (c status : ℕ)
      → (let result = probe_anonymous_read lower decimal new_url fetch (some (stem ++ c ∷ [])) in
          let endpoint = new_url (codes "info/refs?service=git-upload-pack") (with_slash stem c) in
          ((result ≡ threw none) ↔ (endpoint ≡ none))
          × ((result ≡ gave anonymous_readable) ↔ Answers fetch endpoint (IsServed lower))
          × ((result ≡ gave (denied status)) ↔ Answers fetch endpoint (IsRefused status)))
  probe_anonymous_read-verdict stem c status = rw (probe-requested stem c) (
    requested-threw lower decimal fetch _,
    requested_iff lower decimal fetch anonymous_readable (IsServed lower) (λ reason. cc)
        (response_access-readable lower decimal) _,
    requested_iff lower decimal fetch (denied status) (IsRefused status) (λ reason. cc)
        (λ r. response_access-denied lower decimal r status) _,
  )
