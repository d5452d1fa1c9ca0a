-- ===== src/Client/Call/Headers.antt =====
-- crates/tossinvest/src/client.rs, steps 1 and 2 of `TossClient::call`: the headers of a request.
use package.tossinvest_rust.Common.{String, ℕ, ◌≡◌, sym, ap, ◌∙◌, inl, inr, some}
use package.tossinvest_rust.Common.Text.{append}
use package.tossinvest_rust.Common.I64.{show_i64}
use package.tossinvest_rust.Common.Result.{
  Result, ok, Result-cases, ok_injective, err≢ok, >>=-eq-ok,
}
use package.tossinvest_rust.Client.Error.{Error}
use package.tossinvest_rust.Client.Transport.{Http, RawRequest, bearer}
use package.tossinvest_rust.Client.Call.{
  header_arg, authorization, account_header, add_header, authorize, scope, prepare,
}

abbrev pub IsAccountCall : {H : Http} → ℕ → RawRequest H → Type 0
IsAccountCall seq req = (req.auth ≡ bearer) × (req.account ≡ some seq)

-- `HeaderMap` keeps the entries of other names.
abbrev pub KeepsAuthorization : Http → Type 0
KeepsAuthorization H =
    (value : String) (h : H.HeaderMap)
    → H.lookup authorization (H.insert account_header value h) ≡ H.lookup authorization h

header_arg-ok :
    (H : Http) (field text v : String) → header_arg H field text ≡ ok v → H.header_value text ≡ ok v
unfolding header_arg
header_arg-ok H field text v h = elim (Result-cases (H.header_value text)) [
  | inl (e, bad) ↦ absurd (err≢ok (rw (bad, header_arg) at h))
  | inr (u, good) ↦ good ∙ ap ok (ok_injective (rw (good, header_arg) at h))
]

module _ {H : Http} where
  authorize-ok :
      (token : Result String Error) (req req' : RawRequest H)
      → req.auth ≡ bearer
      → authorize token req ≡ ok req'
      → (t : String) × (v : String) × (token ≡ ok t)
        × (H.header_value (append "Bearer " t) ≡ ok v)
        × (req' ≡ add_header authorization v req)
  unfolding authorize
  authorize-ok token req req' needed h =
      let (t, rest, known) = >>=-eq-ok token _ (sym (rw (needed, authorize) at h)) in
      let (v, built, fits) = >>=-eq-ok (header_arg H "authorization" (append "Bearer " t)) _ rest in
      (t, v, known, header_arg-ok H _ _ v fits, ok_injective built)

  scope-ok :
      (req req' : RawRequest H) (seq : ℕ)
      → req.account ≡ some seq
      → scope req ≡ ok req'
      → (v : String) × (H.header_value (show_i64 seq) ≡ ok v)
        × (req' ≡ add_header account_header v req)
  unfolding scope
  scope-ok req req' seq scoped h =
      let (v, built, fits) =
        >>=-eq-ok (header_arg H "x-tossinvest-account" (show_i64 seq)) _
          (sym (rw (scoped, scope) at h)) in
      (v, header_arg-ok H _ _ v fits, ok_injective built)

  -- The prepared request is the request with the two headers.
  pub prepare-whole :
      (token : Result String Error) (req sent : RawRequest H) (seq : ℕ)
      → IsAccountCall seq req
      → prepare token req ≡ ok sent
      → (t : String) × (v : String) × (n : String) × (token ≡ ok t)
        × (H.header_value (append "Bearer " t) ≡ ok v)
        × (H.header_value (show_i64 seq) ≡ ok n)
        × (sent ≡ add_header account_header n (add_header authorization v req))
  unfolding prepare
  prepare-whole token req sent seq (bearing, scoped) h =
      let (req', rest, authorized) = >>=-eq-ok (authorize token req) _ (sym h) in
      let (t, v, known, valued, first) = authorize-ok token req req' bearing authorized in
      let (n, numbered, second) =
        scope-ok req' sent seq (ap (λ r. r.account) first ∙ scoped) (sym rest) in
      (t, v, n, known, valued, numbered, second ∙ ap (add_header account_header n) first)

  -- Its headers carry the account's number and the token of the token manager, as `HeaderValue`
  -- writes them.
  pub prepare-headers :
      (token : Result String Error) (req sent : RawRequest H) (seq : ℕ)
      → KeepsAuthorization H
      → IsAccountCall seq req
      → prepare token req ≡ ok sent
      → (t : String) × (v : String) × (n : String) × (token ≡ ok t)
        × (H.header_value (append "Bearer " t) ≡ ok v)
        × (H.header_value (show_i64 seq) ≡ ok n)
        × (H.lookup authorization sent.headers ≡ some v)
        × (H.lookup account_header sent.headers ≡ some n)
  prepare-headers token req sent seq keeps scoped h =
      let (t, v, n, known, valued, numbered, whole) = prepare-whole token req sent seq scoped h in
      (
        t,
        v,
        n,
        known,
        valued,
        numbered,
        ap (λ r. H.lookup authorization r.headers) whole
            ∙ keeps n (H.insert authorization v req.headers)
            ∙ H.lookup-insert_self authorization v req.headers,
        ap (λ r. H.lookup account_header r.headers) whole
            ∙ H.lookup-insert_self account_header n (H.insert authorization v req.headers),
      )
