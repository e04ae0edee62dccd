-- ===== src/Lifecycle/Lists.antt =====
-- The IP lists that a module uses while its loops refresh them.
use caddy_protector.Base.{◌≡◌, refl, sym, subst, Option, none, some}
use caddy_protector.Base.Result.{Result, ok, err}
use caddy_protector.Text.{Bytes, codes}
use caddy_protector.Text.Unicode.{Unicode}
use caddy_protector.Netip.{Addr}
use caddy_protector.IpList.{AddressParser, ListError, current_ip_list, ip_list_contains}
use caddy_protector.IpList.Names.{load_ip_list-lists}
use caddy_protector.Protector.{IpAllowlist, Protector}
use caddy_protector.RateLimit.{Limits}
use caddy_protector.Filters.{Escapes}
use caddy_protector.Challenge.{Template}
use caddy_protector.Token.{Crypto, Codec, ReturnStateClaims, AllowCookieClaims}
use caddy_protector.Verify.{Parsers}
use caddy_protector.Handler.{serve_http}
use caddy_protector.Handler.Flow.{serve_http_rest}
use caddy_protector.Config.{UrlParser}
use caddy_protector.Config.Provision.{Sources, load_allowlist, load_blacklist, provision}
use caddy_protector.Config.Served.{listed, provision-IsServed}
use caddy_protector.Lifecycle.{
  World, store_allowlist, store_blacklist, allowlist_tick, blacklist_tick, set_country_db,
  store_country, country_tick, cleanup, Step, refresh_allowlist, refresh_blacklist, refresh_country,
  serve, clean_up, Steps, here, step,
}
use caddy_protector.Config.Served.{load_country_db-cases}
use caddy_protector.Config.Provision.{Opened, opened_as, Sources}
use caddy_protector.Base.{inl, inr}

-- The sources of a list after an attempt to load it from others.
abbrev pub read_by : Result ListError IpAllowlist → Sources → Sources → Sources
read_by (err e) from last = last
read_by (ok l) from last = from

module _ ⦃urls : UrlParser⦄ ⦃parsers : Parsers⦄ ⦃u : Unicode⦄ ⦃escapes : Escapes⦄ ⦃crypto : Crypto⦄
    ⦃net : AddressParser⦄ where
  -- The lists in use contain exactly the addresses that the configured sources name.
  pub record IsCurrent (allowed blocked : Sources) (bb : Protector) : Type 0 where
    pub allows :
        (a : Addr)
        → ip_list_contains (current_ip_list bb.allowlist) a
          ≡ listed allowed (codes "whitelist") bb.whitelist_ips bb.whitelist_file bb.whitelist_url a
    pub blocks :
        (a : Addr)
        → ip_list_contains (current_ip_list bb.blacklist) a
          ≡ listed blocked (codes "blacklist") bb.blacklist_ips bb.blacklist_file bb.blacklist_url a

  store_allowlist-IsCurrent :
      (w : World) (from allowed blocked : Sources) (loaded : Result ListError IpAllowlist)
      → load_allowlist from w.bb ≡ loaded
      → IsCurrent allowed blocked w.bb
      → IsCurrent (read_by loaded from allowed) blocked (store_allowlist loaded w).bb
  unfolding current_ip_list
  store_allowlist-IsCurrent w from allowed blocked (err e) came h = h
  store_allowlist-IsCurrent w from allowed blocked (ok l) came h = record {
    allows = λ a.
        load_ip_list-lists from.read_file from.fetch_url (codes "whitelist") w.bb.whitelist_ips
          w.bb.whitelist_file w.bb.whitelist_url l a came;
    blocks = h.blocks;
  }

  store_blacklist-IsCurrent :
      (w : World) (from allowed blocked : Sources) (loaded : Result ListError IpAllowlist)
      → load_blacklist from w.bb ≡ loaded
      → IsCurrent allowed blocked w.bb
      → IsCurrent allowed (read_by loaded from blocked) (store_blacklist loaded w).bb
  unfolding current_ip_list
  store_blacklist-IsCurrent w from allowed blocked (err e) came h = h
  store_blacklist-IsCurrent w from allowed blocked (ok l) came h = record {
    allows = h.allows;
    blocks = λ a.
        load_ip_list-lists from.read_file from.fetch_url (codes "blacklist") w.bb.blacklist_ips
          w.bb.blacklist_file w.bb.blacklist_url l a came;
  }

  store_country-IsCurrent :
      (w : World) (url body : Bytes) (found : Opened) (allowed blocked : Sources)
      → IsCurrent allowed blocked w.bb
      → IsCurrent allowed blocked (store_country (opened_as w.opened url body found) w).bb
  unfolding set_country_db
  store_country-IsCurrent w url body none allowed blocked h = h
  store_country-IsCurrent w url body (some iso_code) allowed blocked h = record {
    allows = h.allows;
    blocks = h.blocks;
  }

  country_tick-IsCurrent :
      (w : World) (from : Sources) (allowed blocked : Sources)
      → IsCurrent allowed blocked w.bb
      → IsCurrent allowed blocked (country_tick from w).bb
  unfolding country_tick
  country_tick-IsCurrent w from allowed blocked h =
      elim (load_country_db-cases w.opened from w.bb.country_url) [
        | inl failed ↦ rw failed h
        | inr (body, iso_code, loaded) ↦
            rw loaded
              (store_country-IsCurrent w w.bb.country_url body (some iso_code) allowed blocked h)
      ]

  limits-IsCurrent :
      (allowed blocked : Sources) (bb : Protector) (limits : Option Limits)
      → IsCurrent allowed blocked bb
      → IsCurrent allowed blocked (record bb { verify_rate_limits = limits })
  limits-IsCurrent allowed blocked bb limits h = record { allows = h.allows; blocks = h.blocks }

module _ ⦃parsers : Parsers⦄ ⦃u : Unicode⦄ ⦃escapes : Escapes⦄ ⦃crypto : Crypto⦄
    ⦃net : AddressParser⦄ (states : Codec ReturnStateClaims) (cookies : Codec AllowCookieClaims)
    (template : Template) where
  -- The sources from which the lists were last loaded, after a step.
  unfoldable pub allowed_by : (w v : World) → Step states cookies template w v → Sources → Sources
  allowed_by _ _ (refresh_allowlist w from running) last =
      read_by (load_allowlist from w.bb) from last
  allowed_by _ _ (refresh_blacklist w from running) last = last
  allowed_by _ _ (refresh_country w from running) last = last
  allowed_by _ _ (serve w r out answer) last = last
  allowed_by _ _ (clean_up w) last = last

  unfoldable pub blocked_by : (w v : World) → Step states cookies template w v → Sources → Sources
  blocked_by _ _ (refresh_allowlist w from running) last = last
  blocked_by _ _ (refresh_blacklist w from running) last =
      read_by (load_blacklist from w.bb) from last
  blocked_by _ _ (refresh_country w from running) last = last
  blocked_by _ _ (serve w r out answer) last = last
  blocked_by _ _ (clean_up w) last = last

  -- The same after any number of steps.
  unfoldable pub last_allowed :
      (w v : World) → Steps states cookies template w v → Sources → Sources
  last_allowed _ _ (here w) last = last
  last_allowed _ _ (step w v z first rest) last = last_allowed v z rest (allowed_by w v first last)

  unfoldable pub last_blocked :
      (w v : World) → Steps states cookies template w v → Sources → Sources
  last_blocked _ _ (here w) last = last
  last_blocked _ _ (step w v z first rest) last = last_blocked v z rest (blocked_by w v first last)

module _ ⦃urls : UrlParser⦄ ⦃parsers : Parsers⦄ ⦃u : Unicode⦄ ⦃escapes : Escapes⦄ ⦃crypto : Crypto⦄
    ⦃net : AddressParser⦄ (states : Codec ReturnStateClaims) (cookies : Codec AllowCookieClaims)
    (template : Template) where
  Step-IsCurrent :
      (w v : World) (first : Step states cookies template w v) (allowed blocked : Sources)
      → IsCurrent allowed blocked w.bb
      → IsCurrent
          (allowed_by states cookies template w v first allowed)
          (blocked_by states cookies template w v first blocked)
          v.bb
  unfolding allowed_by blocked_by allowlist_tick blacklist_tick cleanup set_country_db
  Step-IsCurrent _ _ (refresh_allowlist w from running) allowed blocked h =
      store_allowlist-IsCurrent w from allowed blocked (load_allowlist from w.bb) refl h
  Step-IsCurrent _ _ (refresh_blacklist w from running) allowed blocked h =
      store_blacklist-IsCurrent w from allowed blocked (load_blacklist from w.bb) refl h
  Step-IsCurrent _ _ (refresh_country w from running) allowed blocked h =
      country_tick-IsCurrent w from allowed blocked h
  Step-IsCurrent _ _ (serve w r out answer) allowed blocked h =
      subst (IsCurrent allowed blocked)
        (sym (serve_http_rest states cookies template w.bb r out answer))
        (limits-IsCurrent allowed blocked w.bb
          (serve_http states cookies template w.bb r out answer).0.verify_rate_limits h)
  Step-IsCurrent _ _ (clean_up w) allowed blocked h = record {
    allows = h.allows;
    blocks = h.blocks;
  }

  Steps-IsCurrent :
      (w v : World) (steps : Steps states cookies template w v) (allowed blocked : Sources)
      → IsCurrent allowed blocked w.bb
      → IsCurrent
          (last_allowed states cookies template w v steps allowed)
          (last_blocked states cookies template w v steps blocked)
          v.bb
  unfolding last_allowed last_blocked
  Steps-IsCurrent _ _ (here w) allowed blocked h = h
  Steps-IsCurrent _ _ (step w v z first rest) allowed blocked h =
      Steps-IsCurrent v z rest (allowed_by states cookies template w v first allowed)
        (blocked_by states cookies template w v first blocked)
        (Step-IsCurrent w v first allowed blocked h)

  -- Whatever a module does after it was provisioned, its two IP lists contain exactly the addresses
  -- that their configured sources named when the list was last loaded: by Provision, or by the last
  -- refresh that did not fail.
  pub Steps-lists :
      (from : Sources) (given : Protector) (w v : World)
      → provision from given ≡ ok (w.bb, w.loops)
      → (steps : Steps states cookies template w v)
      → IsCurrent
          (last_allowed states cookies template w v steps from)
          (last_blocked states cookies template w v steps from)
          v.bb
  Steps-lists from given w v set_up steps =
      let served = provision-IsServed from given w.bb w.loops set_up in
      Steps-IsCurrent w v steps from from
        (record { allows = served.allows; blocks = served.blocks })
