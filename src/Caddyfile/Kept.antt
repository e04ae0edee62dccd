-- ===== src/Caddyfile/Kept.antt =====
-- What a directive of the Caddyfile block leaves alone: the fields of the other options.
use caddy_protector.Base.{
  ◌≡◌, refl, subst, Bool, true, false, Option, none, some, List, [], ◌∷◌, if◌then◌else◌,
}
use caddy_protector.Base.Result.{Result, ok, err, ok-injective, ◌>>=◌, >>=-eq-ok}
use caddy_protector.Text.{Bytes, codes, same, same_iff}
use caddy_protector.Protector.{Settings}
use caddy_protector.Caddyfile.{
  CaddyfileError, wrong_argument_count, unknown_option, set_text, set_value, text_or_value,
  set_caddyfile_option, one_argument, header_rule, parse_caddyfile_directive,
}
use caddy_protector.Caddyfile.Fields.{field_of}

some_injective : {a b : Settings} → ◌≡◌ {A = Option Settings} (some a) (some b) → a ≡ b
some_injective h = cc

module _ (name : Bytes) (s : Settings) where
  -- An option that is accepted keeps the field of this name.
  abbrev Kept : Result CaddyfileError Settings → Type 0
  Kept m = (next : Settings) → m ≡ ok next → field_of name next ≡ field_of name s

  Kept-ok : (next : Settings) → field_of name next ≡ field_of name s → Kept (ok next)
  Kept-ok next h other e =
      subst (λ (t : Settings). field_of name t ≡ field_of name s) (ok-injective e) h

  Kept-err : (e : CaddyfileError) → Kept (err e)
  Kept-err e other h = cc

  Kept-bind :
      {A : Type 0} (m : Result CaddyfileError A) (next : A → Result CaddyfileError Settings)
      → ((a : A) → Kept (next a))
      → Kept (m >>= next)
  Kept-bind m next h other e = let (a, _, k) = >>=-eq-ok m next e in h a other k

  other_name :
      (param option : Bytes)
      → same name param ≡ false
      → same param option ≡ true
      → same name option ≡ false
  other_name param option differs h = rw (← (same_iff param option).0 h) differs

  Kept-if :
      (param option : Bytes) (m rest : Result CaddyfileError Settings)
      → same name param ≡ false
      → (same name option ≡ false → Kept m)
      → Kept rest
      → Kept (if same param option then m else rest)
  Kept-if param option m rest differs here there =
      decided (same param option) (λ h. here (other_name param option differs h))
    where
      decided : (b : Bool) → (b ≡ true → Kept m) → Kept (if b then m else rest)
      decided true first = first refl
      decided false first = there

  -- The same for the options that may be absent.
  abbrev KeptText : Option Settings → Type 0
  KeptText o = (next : Settings) → o ≡ some next → field_of name next ≡ field_of name s

  kept_option :
      (param option : Bytes) (new : Settings) (rest : Option Settings)
      → same name param ≡ false
      → (same name option ≡ false → field_of name new ≡ field_of name s)
      → KeptText rest
      → KeptText (if same param option then some new else rest)
  kept_option param option new rest differs here there =
      decided (same param option) (λ h. here (other_name param option differs h))
    where
      decided :
          (b : Bool)
          → (b ≡ true → field_of name new ≡ field_of name s)
          → KeptText (if b then some new else rest)
      decided true first next e =
          subst (λ (t : Settings). field_of name t ≡ field_of name s) (some_injective e)
            (first refl)
      decided false first next e = there next e

  set_text-Kept : (param arg : Bytes) → same name param ≡ false → KeptText (set_text param arg s)
  unfolding set_text field_of
  set_text-Kept param arg d =
      kept_option param (codes "cap_api_url") _ _ d (λ h. rw h)
        (kept_option param (codes "cap_site_key") _ _ d (λ h. rw h)
          (kept_option param (codes "cap_secret_key") _ _ d (λ h. rw h)
            (kept_option param (codes "bypass_api_key") _ _ d (λ h. rw h)
              (kept_option param (codes "cookie_name") _ _ d (λ h. rw h)
                (kept_option param (codes "cookie_path") _ _ d (λ h. rw h)
                  (kept_option param (codes "cookie_domain") _ _ d (λ h. rw h)
                    (kept_option param (codes "cookie_same_site") _ _ d (λ h. rw h)
                      (kept_option param (codes "verify_path") _ _ d (λ h. rw h)
                        (kept_option param (codes "deny_path_prefix") _ _ d (λ h. rw h)
                          (kept_option param (codes "deny_query_substring") _ _ d (λ h. rw h)
                            (kept_option param (codes "whitelist_ip") _ _ d (λ h. rw h)
                              (kept_option param (codes "whitelist_file") _ _ d (λ h. rw h)
                                (kept_option param (codes "whitelist_url") _ _ d (λ h. rw h)
                                  (kept_option param (codes "blacklist_ip") _ _ d (λ h. rw h)
                                    (kept_option param (codes "blacklist_file") _ _ d (λ h. rw h)
                                      (kept_option param (codes "blacklist_url") _ _ d (λ h. rw h)
                                        (kept_option param (codes "country_url") _ _ d (λ h. rw h)
                                          (kept_option param (codes "template") _ _ d (λ h. rw h)
                                            (λ next e. cc)))))))))))))))))))

  set_value-Kept : (param arg : Bytes) → same name param ≡ false → Kept (set_value param arg s)
  unfolding set_value field_of
  set_value-Kept param arg d =
      Kept-if param (codes "allow_for") _ _ d (λ h. Kept-bind _ _ (λ v. Kept-ok _ (rw h)))
        (Kept-if param (codes "whitelist_refresh") _ _ d
          (λ h. Kept-bind _ _ (λ v. Kept-ok _ (rw h)))
          (Kept-if param (codes "blacklist_refresh") _ _ d
            (λ h. Kept-bind _ _ (λ v. Kept-ok _ (rw h)))
            (Kept-if param (codes "country_url_refresh") _ _ d
              (λ h. Kept-bind _ _ (λ v. Kept-ok _ (rw h)))
              (Kept-if param (codes "cookie_secure") _ _ d
                (λ h. Kept-bind _ _ (λ v. Kept-ok _ (rw h)))
                (Kept-if param (codes "cookie_http_only") _ _ d
                  (λ h. Kept-bind _ _ (λ v. Kept-ok _ (rw h))) (Kept-err unknown_option))))))

  text_or_value-Kept :
      (o : Option Settings) (m : Result CaddyfileError Settings)
      → KeptText o
      → Kept m
      → Kept (text_or_value o m)
  text_or_value-Kept none m ho hm = hm
  text_or_value-Kept (some new) m ho hm = Kept-ok new (ho new refl)

  one_argument-Kept :
      (param : Bytes) (args : List Bytes)
      → same name param ≡ false
      → Kept (one_argument param args s)
  unfolding set_caddyfile_option
  one_argument-Kept param [] d = Kept-err wrong_argument_count
  one_argument-Kept param (arg ∷ []) d =
      text_or_value-Kept (set_text param arg s) (set_value param arg s) (set_text-Kept param arg d)
        (set_value-Kept param arg d)
  one_argument-Kept param (arg ∷ other ∷ args) d = Kept-err wrong_argument_count

  header_rule-Kept :
      (args : List Bytes)
      → same name (codes "deny_header_substring") ≡ false
      → Kept (header_rule args s)
  unfolding field_of
  header_rule-Kept [] h = Kept-err wrong_argument_count
  header_rule-Kept (a ∷ []) h = Kept-err wrong_argument_count
  header_rule-Kept (a ∷ b ∷ []) h = Kept-ok _ (rw h)
  header_rule-Kept (a ∷ b ∷ c ∷ args) h = Kept-err wrong_argument_count

  pub parse_caddyfile_directive-Kept :
      (param : Bytes) (args : List Bytes)
      → same name param ≡ false
      → Kept (parse_caddyfile_directive param args s)
  unfolding parse_caddyfile_directive field_of
  parse_caddyfile_directive-Kept param args d =
      Kept-if param (codes "disable_csp_header") _ _ d (λ h. Kept-bind _ _ (λ v. Kept-ok _ (rw h)))
        (Kept-if param (codes "whitelist_country") _ _ d
          (λ h. Kept-bind _ _ (λ v. Kept-ok _ (rw h)))
          (Kept-if param (codes "blacklist_country") _ _ d
            (λ h. Kept-bind _ _ (λ v. Kept-ok _ (rw h)))
            (Kept-if param (codes "deny_header_substring") _ _ d (λ h. header_rule-Kept args h)
              (one_argument-Kept param args d))))
