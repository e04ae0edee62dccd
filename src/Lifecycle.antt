-- ===== src/Lifecycle.antt =====
-- The refresh loops of refresh.go and Cleanup of lifecycle.go: the steps that a module takes while it
-- serves requests. A reader of the database is told by its handle.
pub mod Readers
pub mod Lists
pub mod Visit
use caddy_protector.Base.{ℕ, suc, ◌≡◌, true, false, Option, none, some, List, [], ◌∷◌, ◌++◌, length}
use caddy_protector.Text.{Bytes, codes}
use caddy_protector.Text.Unicode.{Unicode}
use caddy_protector.Http.{Request, Response}
use caddy_protector.Netip.{Addr}
use caddy_protector.Base.Result.{Result, ok, err}
use caddy_protector.IpList.{AddressParser, ListError}
use caddy_protector.Protector.{IpAllowlist, Reader, CountryDb, Protector}
use caddy_protector.RateLimit.{reset_verify_rate_limits}
use caddy_protector.Filters.{Escapes}
use caddy_protector.Challenge.{Template}
use caddy_protector.Token.{Crypto, Codec, ReturnStateClaims, AllowCookieClaims}
use caddy_protector.Verify.{Parsers}
use caddy_protector.Handler.{Outside, serve_http}
use caddy_protector.Config.Provision.{
  Loops, Sources, load_country_db, load_allowlist, load_blacklist,
}

-- The module, its running loops, the handles that were closed, newest first, and how many readers
-- were opened: the handle of the next one.
pub record World : Type 0 where
  pub bb : Protector
  pub loops : Loops
  pub closed : List ℕ
  pub opened : ℕ

abbrev pub reader_handle : Option Reader → List ℕ
reader_handle none = []
reader_handle (some reader) = reader.handle ∷ []

-- The handle of the reader in use, if there is one.
abbrev pub in_use : Option CountryDb → List ℕ
in_use none = []
in_use (some db) = reader_handle db.reader

unfoldable pub set_country_db : Option CountryDb → World → World
set_country_db next w = record w {
  bb = record w.bb { country_db = next };
  closed = in_use w.bb.country_db ++ w.closed;
}

abbrev pub store_country : Option CountryDb → World → World
store_country none w = w
store_country (some db) w = record (set_country_db (some db) w) { opened = suc w.opened }

-- One tick of runCountryRefreshLoop.
unfoldable pub country_tick : Sources → World → World
country_tick from w = store_country (load_country_db w.opened from w.bb.country_url) w

-- A list that cannot be loaded leaves the one in use.
abbrev pub store_allowlist : Result ListError IpAllowlist → World → World
store_allowlist (err e) w = w
store_allowlist (ok l) w = record w { bb = record w.bb { allowlist = some l } }

abbrev pub store_blacklist : Result ListError IpAllowlist → World → World
store_blacklist (err e) w = w
store_blacklist (ok l) w = record w { bb = record w.bb { blacklist = some l } }

-- One tick of runIPListRefreshLoop, for each list.
module _ ⦃net : AddressParser⦄ where
  unfoldable pub allowlist_tick : Sources → World → World
  allowlist_tick from w = store_allowlist (load_allowlist from w.bb) w

  unfoldable pub blacklist_tick : Sources → World → World
  blacklist_tick from w = store_blacklist (load_blacklist from w.bb) w

-- A module that was provisioned, with the reader that was opened for it, if one was.
abbrev pub started : Protector → Loops → World
started bb loops = record {
  bb = bb;
  loops = loops;
  closed = [];
  opened = length (in_use bb.country_db);
}

abbrev pub stopped : Loops
stopped = record { allowlist_loop = false; blacklist_loop = false; country_loop = false }

-- Cleanup: the loops end before the database is closed.
unfoldable pub cleanup : World → World
cleanup w =
    let idle = set_country_db none (record w { loops = stopped }) in
    record idle {
      bb = record idle.bb {
        verify_rate_limits = reset_verify_rate_limits idle.bb.verify_rate_limits;
      };
    }

module _ ⦃parsers : Parsers⦄ ⦃u : Unicode⦄ ⦃escapes : Escapes⦄ ⦃crypto : Crypto⦄
    ⦃net : AddressParser⦄ (states : Codec ReturnStateClaims) (cookies : Codec AllowCookieClaims)
    (template : Template) where
  abbrev pub after_request : Request → Outside → Response → World → World
  after_request r out answer w = record w {
    bb = (serve_http states cookies template w.bb r out answer).0;
  }

  pub data Step : World → World → Type 0 where
    refresh_allowlist :
        (w : World) (from : Sources)
        → w.loops.allowlist_loop ≡ true
        → Step w (allowlist_tick from w)
    refresh_blacklist :
        (w : World) (from : Sources)
        → w.loops.blacklist_loop ≡ true
        → Step w (blacklist_tick from w)
    refresh_country :
        (w : World) (from : Sources) → w.loops.country_loop ≡ true → Step w (country_tick from w)
    serve :
        (w : World) (r : Request) (out : Outside) (answer : Response)
        → Step w (after_request r out answer w)
    clean_up : (w : World) → Step w (cleanup w)

  pub data Steps : World → World → Type 0 where
    here : (w : World) → Steps w w
    step : (w v z : World) → Step w v → Steps v z → Steps w z
