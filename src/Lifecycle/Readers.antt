-- ===== src/Lifecycle/Readers.antt =====
-- The readers of the country database: none is closed twice, and none in use is closed.
use caddy_protector.Base.{
  ℕ, suc, ◌<◌, ◌≡◌, ◌≢◌, refl, ap, sym, ◌∙◌, subst, none, some, List, [], ◌∷◌, ◌++◌, All, length,
  arith,
}
use caddy_protector.Text.{Bytes}
use caddy_protector.Text.Unicode.{Unicode}
use caddy_protector.Base.Result.{Result, ok, err}
use caddy_protector.IpList.{AddressParser, ListError}
use caddy_protector.Config.Provision.{load_allowlist, load_blacklist}
use caddy_protector.Protector.{IpAllowlist, Protector}
use caddy_protector.RateLimit.{made, reset_verify_rate_limits}
use caddy_protector.RateLimit.Table.{IsValid}
use caddy_protector.Filters.{Escapes}
use caddy_protector.Challenge.{Template}
use caddy_protector.Token.{Crypto, Codec, ReturnStateClaims, AllowCookieClaims}
use caddy_protector.Verify.{Parsers}
use caddy_protector.Handler.Flow.{serve_http-limits}
use caddy_protector.Lifecycle.{
  World, started, store_allowlist, store_blacklist, allowlist_tick, blacklist_tick, in_use,
  set_country_db, store_country, country_tick, cleanup, stopped, Step, refresh_allowlist,
  refresh_blacklist, refresh_country, serve, clean_up, Steps, here, step,
}
use caddy_protector.Config.Served.{load_country_db-cases, provision-IsServed}
use caddy_protector.Config.FirstReader.{IsFirst, provision-IsFirst}
use caddy_protector.Config.Provision.{Opened, opened_as, Sources, Loops, provision}
use caddy_protector.Config.{UrlParser}
use caddy_protector.Base.{inl, inr}

-- No handle stands twice.
abbrev pub Different : List ℕ → Type 0
Different [] = Unit
Different (h ∷ hs) = All (λ k. k ≢ h) hs × Different hs

abbrev pub Below : ℕ → List ℕ → Type 0
Below n = All (λ k. k < n)

-- The handles that were opened, the one in use first.
abbrev pub handles : World → List ℕ
handles w = in_use w.bb.country_db ++ w.closed

pub record IsSound (w : World) : Type 0 where
  pub different : Different (handles w)
  pub known : Below w.opened (handles w)
  pub complete : length (handles w) ≡ w.opened
  pub limits : IsValid (made w.bb.verify_rate_limits)

Below-suc : (n : ℕ) (hs : List ℕ) → Below n hs → Below (suc n) hs
Below-suc n [] h = tt
Below-suc n (k ∷ hs) (h, rest) = (omega arith, Below-suc n hs rest)

Below-other : (n : ℕ) (hs : List ℕ) → Below n hs → All (λ k. k ≢ n) hs
Below-other n [] h = tt
Below-other n (k ∷ hs) (h, rest) = (omega arith, Below-other n hs rest)

no_limits : IsValid []
no_limits = record { distinct = tt; small = tt; bounded = omega arith }

store-IsSound :
    (w : World) (url body : Bytes) (found : Opened)
    → IsSound w
    → IsSound (store_country (opened_as w.opened url body found) w)
unfolding set_country_db
store-IsSound w url body none h = h
store-IsSound w url body (some iso_code) h = record {
  different = (Below-other w.opened (handles w) h.known, h.different);
  known = (omega arith, Below-suc w.opened (handles w) h.known);
  complete = omega (arith, h.complete);
  limits = h.limits;
}

country_tick-IsSound : (w : World) (from : Sources) → IsSound w → IsSound (country_tick from w)
unfolding country_tick
country_tick-IsSound w from h = elim (load_country_db-cases w.opened from w.bb.country_url) [
  | inl failed ↦ rw failed h
  | inr (body, iso_code, loaded) ↦
      rw loaded (store-IsSound w w.bb.country_url body (some iso_code) h)
]

store_allowlist-IsSound :
    (w : World) (loaded : Result ListError IpAllowlist)
    → IsSound w
    → IsSound (store_allowlist loaded w)
store_allowlist-IsSound w (err e) h = h
store_allowlist-IsSound w (ok l) h = record {
  different = h.different;
  known = h.known;
  complete = h.complete;
  limits = h.limits;
}

store_blacklist-IsSound :
    (w : World) (loaded : Result ListError IpAllowlist)
    → IsSound w
    → IsSound (store_blacklist loaded w)
store_blacklist-IsSound w (err e) h = h
store_blacklist-IsSound w (ok l) h = record {
  different = h.different;
  known = h.known;
  complete = h.complete;
  limits = h.limits;
}

module _ ⦃parsers : Parsers⦄ ⦃u : Unicode⦄ ⦃escapes : Escapes⦄ ⦃crypto : Crypto⦄
    ⦃net : AddressParser⦄ (states : Codec ReturnStateClaims) (cookies : Codec AllowCookieClaims)
    (template : Template) where
  Step-IsSound : (w v : World) → Step states cookies template w v → IsSound w → IsSound v
  unfolding cleanup set_country_db reset_verify_rate_limits allowlist_tick blacklist_tick
  Step-IsSound _ _ (refresh_allowlist w from running) h =
      store_allowlist-IsSound w (load_allowlist from w.bb) h
  Step-IsSound _ _ (refresh_blacklist w from running) h =
      store_blacklist-IsSound w (load_blacklist from w.bb) h
  Step-IsSound _ _ (refresh_country w from running) h = country_tick-IsSound w from h
  Step-IsSound _ _ (serve w r out answer) h =
      let (valid, kept) = serve_http-limits states cookies template w.bb r out answer h.limits in
      let same_db = ap (λ (bb : Protector). in_use bb.country_db ++ w.closed) kept in
      record {
        different = subst Different (sym same_db) h.different;
        known = subst (Below w.opened) (sym same_db) h.known;
        complete = ap length same_db ∙ h.complete;
        limits = valid;
      }
  Step-IsSound _ _ (clean_up w) h = record {
    different = h.different;
    known = h.known;
    complete = h.complete;
    limits = no_limits;
  }

  -- Whatever steps a sound module takes, it stays sound.
  pub Steps-IsSound : (w v : World) → Steps states cookies template w v → IsSound w → IsSound v
  Steps-IsSound _ _ (here w) h = h
  Steps-IsSound _ _ (step w v z first rest) h = Steps-IsSound v z rest (Step-IsSound w v first h)

  -- Whatever a sound module did before, its cleanup closes every reader that was opened, each of
  -- them once, leaves none in use and stops the loops.
  pub Steps-cleanup :
      (w v : World)
      → Steps states cookies template w v
      → IsSound w
      → (in_use (cleanup v).bb.country_db ≡ [])
        × Different (cleanup v).closed
        × Below (cleanup v).opened (cleanup v).closed
        × (length (cleanup v).closed ≡ (cleanup v).opened)
        × ((cleanup v).loops ≡ stopped)
  unfolding cleanup set_country_db
  Steps-cleanup w v reached h =
      let sound = Steps-IsSound w v reached h in
      (refl, sound.different, sound.known, sound.complete, refl)

module _ ⦃urls : UrlParser⦄ ⦃parsers : Parsers⦄ ⦃u : Unicode⦄ ⦃escapes : Escapes⦄ ⦃crypto : Crypto⦄
    ⦃net : AddressParser⦄ (states : Codec ReturnStateClaims) (cookies : Codec AllowCookieClaims)
    (template : Template) where
  started-IsSound :
      (bb : Protector) (loops : Loops)
      → IsValid (made bb.verify_rate_limits)
      → IsFirst bb.country_db
      → IsSound (started bb loops)
  started-IsSound bb loops limits (inl empty) = record {
    different = rw empty tt;
    known = rw empty tt;
    complete = rw empty refl;
    limits = limits;
  }
  started-IsSound bb loops limits (inr (url, body, iso_code, loaded)) = record {
    different = rw loaded (tt, tt);
    known = rw loaded (omega arith, tt);
    complete = rw loaded refl;
    limits = limits;
  }

  -- From a fresh module without a database that Provision accepts, whatever sequence of refreshes,
  -- requests and cleanups it goes through, every database reader that was opened is in use or was
  -- closed, none was closed twice, none in use was closed, and the rate limits stay well formed.
  pub Steps-provisioned :
      (from : Sources) (given bb : Protector) (loops : Loops) (v : World)
      → given.country_db ≡ none
      → provision from given ≡ ok (bb, loops)
      → Steps states cookies template (started bb loops) v
      → IsSound v
  Steps-provisioned from given bb loops v fresh set_up steps =
      Steps-IsSound states cookies template (started bb loops) v steps (
        started-IsSound bb loops (provision-IsServed from given bb loops set_up).limits
          (provision-IsFirst from given bb loops fresh set_up))
