-- ===== src/Gateway/Guard.antt =====
-- Who is let in: `authenticate` of core/apigateway/handlers.go before the routes that it guards.
use Prim.Native.Char.{code}
use Prim.Native.String
use Prim.Native.String.append
use text.Mathlib.TextEquality.{Char-path}
use astra_store_xion.Base.{
  String, false, Option, none, some, Bool-cases, if-some, ◌≡◌, ◌≢◌, ◌⊎◌, inl, inr, refl, sym, ap,
  ◌∙◌, eq_iff, ==_iff, ◌==◌, str_eq, string_key,
}
use astra_store_xion.Files.Text.{is_blank, or_empty}
use astra_store_xion.Files.World.{Env}
use astra_store_xion.Gateway.Model.{
  Response, write_error, Gateway, Formats, Request, Occasion, Site, pure, reply, ◌>>=◌, reply_if,
  final,
}
use astra_store_xion.Gateway.Text.{strip_prefix, provided_token}
use astra_store_xion.Gateway.Ranges.{strip_prefix-append}
use astra_store_xion.Gateway.Handlers.{Route, serve, is_open, authenticate, routed, handle}

strip_prefix-inverts : (p v s : String) → strip_prefix p v ≡ some s → v ≡ String.◌++◌ p s
unfolding strip_prefix
strip_prefix-inverts String.[] v s e = rw (append.nil s) (cc)
strip_prefix-inverts (String.◌∷◌ c p) String.[] s e = absurd (cc)
strip_prefix-inverts (String.◌∷◌ c p) (String.◌∷◌ d v) s e =
    let parts = if-some (code d == code c) (strip_prefix p v) s e in
    let same = Char-path d c ((==_iff (code d) (code c)).0 parts.0) in
    rw (append.cons c p s, sym same, sym (strip_prefix-inverts p v s parts.1)) refl

blank_first : (t : String) → "" ≡ t → is_blank t ≡ false → ⊥
blank_first t p n = cc

provided_by :
    (o : Option String) (v t : String)
    → strip_prefix "Bearer " v ≡ o
    → is_blank t ≡ false
    → or_empty o ≡ t
    → v ≡ String.◌++◌ "Bearer " t
provided_by none v t e n p = absurd (blank_first t p n)
provided_by (some s) v t e n p = strip_prefix-inverts "Bearer " v s e ∙ ap (String.◌++◌ "Bearer ") p

provided_token-inverts :
    (v t : String) → is_blank t ≡ false → provided_token v ≡ t → v ≡ String.◌++◌ "Bearer " t
unfolding provided_token
provided_token-inverts v t n p = provided_by (strip_prefix "Bearer " v) v t refl n p

provided_token-append : (t : String) → provided_token (String.◌++◌ "Bearer " t) ≡ t
unfolding provided_token
provided_token-append t = rw (strip_prefix-append "Bearer " t) refl

module _ (env : Env) (fmt : Formats) (g : Gateway) (o : Occasion) (request : Request)
    (route : Route) (site : Site) where
  abbrev pub served : Response × Site
  served = let (s, site') = serve env fmt g o request route site in (final s, site')

  refuted :
      request.authorization ≡ String.◌++◌ "Bearer " g.token
      → str_eq (provided_token request.authorization) g.token ≡ false
      → ⊥
  refuted h e =
      let same = ap provided_token h ∙ provided_token-append g.token in
      let yes = (eq_iff (provided_token request.authorization) g.token).1 same in cc

  -- A gateway that has a token (which its start demands) answers a guarded route exactly if the
  -- header `Authorization` is "Bearer " and the token; else the answer is 401 and nothing changes.
  pub handle_guarded :
      is_blank g.token ≡ false
      → is_open route ≡ false
      → ((request.authorization ≡ String.◌++◌ "Bearer " g.token)
          × (handle env fmt g o request route site ≡ served))
        ⊎ ((request.authorization ≢ String.◌++◌ "Bearer " g.token)
            × (handle env fmt g o request route site ≡ (write_error 401 "unauthorized", site)))
  unfolding handle routed authenticate reply_if reply pure ◌>>=◌
  handle_guarded n guarded =
      elim (Bool-cases (str_eq (provided_token request.authorization) g.token)) [
        | inl e ↦ inl (
          provided_token-inverts request.authorization g.token n ((eq_iff _ _).0 e),
          rw (guarded, e) refl,
        )
        | inr e ↦ inr (λ h. refuted h e, rw (guarded, e) refl)
      ]
