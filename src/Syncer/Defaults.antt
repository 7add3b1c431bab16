-- ===== src/Syncer/Defaults.antt =====
-- The defaults of `GroupSyncMgr.SetDefaults` reach a fixed point in one update of the instance.
use group_sync_operator.Prelude.{
  String, ◌≡◌, refl, false, Option, none, some, ok, arith, ◌==◌, Bool-cases, inl, inr,
}
use group_sync_operator.Prelude.Int.{ℤ}
use group_sync_operator.Api.{sub_sync_scope, Provider, ProviderType}
use group_sync_operator.Syncer.{
  Syncer, okta, keycloak, github, gitlab, azure, ldap, choose, get_group_syncer_for_provider,
  default_text, default_limit, master_realm, init, write_back,
}

default_text-ne_empty : (d v : String) → (d == "") ≡ false → (default_text d v == "") ≡ false
unfolding default_text
default_text-ne_empty d v h = elim (Bool-cases (v == "")) [ inl y ↦ rw y h | inr f ↦ rw f f ]

default_text-default_text :
    (d v : String) → (d == "") ≡ false → default_text d (default_text d v) ≡ default_text d v
default_text-default_text d v h = unfold default_text in rw (default_text-ne_empty d v h)

default_limit-default_limit : (n : ℤ) → default_limit (default_limit n) ≡ default_limit n
unfolding default_limit
default_limit-default_limit n = ground arith

pub init-init : (s : Syncer) → init (init s).0 ≡ ((init s).0, false)
unfolding init
init-init (okta n p) = rw (
  default_text-ne_empty "login" p.profile_key refl,
  default_text-default_text "login" p.profile_key refl,
  default_limit-default_limit p.group_limit,
)
init-init (keycloak n p) = rw (
  default_text-ne_empty master_realm p.login_realm refl,
  default_text-ne_empty sub_sync_scope p.scope refl,
  default_text-default_text master_realm p.login_realm refl,
  default_text-default_text sub_sync_scope p.scope refl,
)
init-init (github n p) = refl
init-init (gitlab n p) = refl
init-init (azure n p) = refl
init-init (ldap n p) = refl

write_back_chosen :
    (name : String) (t : ProviderType) (s : Syncer)
    → choose name t ≡ ok s
    → get_group_syncer_for_provider
        (write_back (init s).0 (record { name = name; provider_type = some t }))
      ≡ ok (init s).0
unfolding get_group_syncer_for_provider write_back init
write_back_chosen name t (okta n p) h = ground arith
write_back_chosen name t _ h = ground arith

pub write_back_lem :
    (p : Provider) (s : Syncer)
    → get_group_syncer_for_provider p ≡ ok s
    → get_group_syncer_for_provider (write_back (init s).0 p) ≡ ok (init s).0
write_back_lem p s h = go p.provider_type (unfold get_group_syncer_for_provider in h)
  where
    go :
        (o : Option ProviderType)
        → get_group_syncer_for_provider (record p { provider_type = o }) ≡ ok s
        → get_group_syncer_for_provider (write_back (init s).0 (record p { provider_type = o }))
          ≡ ok (init s).0
    go none e = absurd (unfold get_group_syncer_for_provider in cc)
    go (some t) e = write_back_chosen p.name t s (unfold get_group_syncer_for_provider in e)
