-- ===== src/Okta/Synced.antt =====
-- What the `Sync` of pkg/syncer/okta.go returns, whatever the order in which groups are retrieved.
use mathlib.Core.Logic.{∥∥₁_elim}
use native.Mathlib.Nat.{ℕ_set}
use mathlib.Core.List.{Perm, Permᴰ}
use group_sync_operator.Prelude.{
  ℕ, zero, suc, ◌≤◌, String, ◌==◌, ◌≡◌, refl, sym, ap, ◌∙◌, Bool, true, ◌||◌, ◌&&◌, Option, none,
  some, List, [], ◌∷◌, ◌++◌, append-nil, append_assoc, length, Result, ok, arith,
}
use group_sync_operator.Prelude.Dict.{contains}
use group_sync_operator.Api.{OktaProvider}
use group_sync_operator.Syncer.{is_group_allowed}
use group_sync_operator.GitHub.Paged.{concat}
use group_sync_operator.Okta.{
  OktaGroup, OktaCache, retrieved, fetch_groups_async, process_okta_groups, okta_groups,
}
use group_sync_operator.Okta.Fetched.{all_retrieved, fetch_groups_async_iff}
use group_sync_operator.Okta.Users.{has_allowed, process_okta_groups_lem}
use group_sync_operator.Okta.Listing.{OktaServer, append_pages, get_okta_groups, okta_sync}

Permᴰ-length : {xs ys : List OktaGroup} → Permᴰ xs ys → length xs ≡ length ys
Permᴰ-length Permᴰ.nil = refl
Permᴰ-length (Permᴰ.cons _ e) = ap suc (Permᴰ-length e)
Permᴰ-length (Permᴰ.swap _ _) = refl
Permᴰ-length (Permᴰ.trans e f) = Permᴰ-length e ∙ Permᴰ-length f

Perm-length : {xs ys : List OktaGroup} → Perm xs ys → length xs ≡ length ys
Perm-length e = ∥∥₁_elim e (ℕ_set _ _) Permᴰ-length

module _ (p : OktaProvider) (k : String) where
  abbrev counts : OktaGroup → Bool
  counts g = g.id == k && is_group_allowed g.name p.groups

  Permᴰ-has_allowed :
      {xs ys : List OktaGroup} → Permᴰ xs ys → has_allowed p k xs ≡ has_allowed p k ys
  Permᴰ-has_allowed Permᴰ.nil = refl
  Permᴰ-has_allowed (Permᴰ.cons {a = a} {b = b} e f) =
      let same : counts a ≡ counts b = ap counts e in
      let rest : _ = Permᴰ-has_allowed f in ground arith
  Permᴰ-has_allowed (Permᴰ.swap {a = a} {b = b} {a' = c} {b' = d} e f) =
      let first : counts a ≡ counts d = ap counts e in
      let second : counts b ≡ counts c = ap counts f in ground arith
  Permᴰ-has_allowed (Permᴰ.trans e f) = Permᴰ-has_allowed e ∙ Permᴰ-has_allowed f

  Perm-has_allowed : {xs ys : List OktaGroup} → Perm xs ys → has_allowed p k xs ≡ has_allowed p k ys
  Perm-has_allowed {xs = xs} {ys = ys} e = ∥∥₁_elim e (hlevel) Permᴰ-has_allowed

module _ (server : OktaServer) where
  -- Behind the link the server answers these pages, each with the link to the next one.
  abbrev pub LinkServes : Option String → List (List String) → Type 0
  LinkServes none [] = Unit {0}
  LinkServes none (p ∷ ps) = ⊥
  LinkServes (some link) [] = ⊥
  LinkServes (some link) (p ∷ ps) =
      (after : Option String) × (server.next_page_of link
        ≡ ok (record { apps = p; next_page = after }))
      × LinkServes after ps

  append_pages_result :
      (fuel : ℕ) (apps : List String) (link : Option String) (ps : List (List String))
      → LinkServes link ps
      → length ps ≤ fuel
      → append_pages server fuel apps link ≡ some (ok (apps ++ concat ps))
  unfolding append_pages concat
  append_pages_result fuel apps none [] h f = ap (λ xs. some (ok xs)) (sym (append-nil apps))
  append_pages_result fuel apps none (p ∷ ps) h f = absurd h
  append_pages_result fuel apps (some link) [] h f = absurd h
  append_pages_result zero apps (some link) (p ∷ ps) h f = absurd (omega arith)
  append_pages_result (suc fuel) apps (some link) (p ∷ ps) h f =
      rw (h.1, append_pages_result fuel (apps ++ p) h.0 ps h.2 (omega arith))
        (ap (λ xs. some (ok xs)) (append_assoc apps p (concat ps)))

  -- When the server answers the assignments of the application in pages and each of their groups is
  -- retrieved, `Sync` ends without an error, for every fuel of at least the number of the pages behind
  -- the first. In whatever order the groups arrive, a group is cached exactly if it was before or an
  -- assigned group has its ID and an allowed name; the groups that are returned are those made of the
  -- cache.
  pub okta_sync_result :
      (order : List OktaGroup → List OktaGroup) (is_qualified : String → Bool)
      (host_of : String → Result String) (fuel : ℕ) (p : OktaProvider) (s : OktaCache)
      (host : String) (apps : List String) (link : Option String) (ps : List (List String))
      → ((xs : List OktaGroup) → Perm (order xs) xs)
      → server.list_application_group_assignments p.app_id p.group_limit
        ≡ ok (record { apps = apps; next_page = link })
      → LinkServes link ps
      → length ps ≤ fuel
      → all_retrieved server.get_group (apps ++ concat ps) ≡ true
      → host_of p.url ≡ ok host
      → (t : OktaCache) × (okta_sync server order is_qualified host_of fuel p s
          ≡ some (ok (t, okta_groups is_qualified p t host t.groups)))
        × ((k : String)
            → contains k t.groups ≡ (
                contains k s.groups
                || has_allowed p k (retrieved server.get_group (apps ++ concat ps))))
  unfolding okta_sync get_okta_groups
  okta_sync_result order is_qualified host_of fuel p s host apps link ps perm first pages enough all
        hosted =
      let assigned : List String = apps ++ concat ps in
      let found : List OktaGroup = retrieved server.get_group assigned in
      let fetched : fetch_groups_async order server.get_group assigned ≡ ok (order found) =
        (fetch_groups_async_iff order server.get_group assigned (order found)
            (λ xs. Perm-length (perm xs))).1
          (all, refl) in
      (
        process_okta_groups p server.list_group_users (order found) s,
        rw (first, append_pages_result fuel apps link ps pages enough, fetched, hosted) refl,
        λ k.
            process_okta_groups_lem p server.list_group_users (order found) s k
            ∙ ap (λ b. contains k s.groups || b) (Perm-has_allowed p k (perm found)),
      )
