-- ===== src/Okta/Listing.antt =====
-- `getGroups` and `Sync` of pkg/syncer/okta.go. The loop over the pages is on fuel: it has no result
-- where the fuel ends before the last page. What the client answers is a parameter, a function of the
-- request.
use group_sync_operator.Prelude.{
  ℕ, zero, suc, String, Bool, Option, none, some, List, ◌++◌, Result, ok,
}
use group_sync_operator.Prelude.Int.{ℤ}
use group_sync_operator.Api.{OktaProvider}
use group_sync_operator.Cluster.{Group}
use group_sync_operator.Collect.{Fuelled, next}
use group_sync_operator.Okta.{
  OktaGroup, OktaUser, OktaCache, fetch_groups_async, process_okta_groups, okta_groups,
}

-- A page of the assignments, by the IDs of their groups, with the link to the next one, if any.
pub record AssignmentPage : Type 0 where
  pub apps : List String
  pub next_page : Option String

-- The requests that `Sync` makes: the first page of the assignments of an application, the page of a
-- link, a group and the users of a group, with nothing where the request answers an error.
pub record OktaServer : Type 0 where
  pub list_application_group_assignments : String → ℤ → Result AssignmentPage
  pub next_page_of : String → Result AssignmentPage
  pub get_group : String → Option OktaGroup
  pub list_group_users : String → Option (List OktaUser)

module _ (server : OktaServer) where
  -- The loop over the pages, from the first answer on.
  unfoldable pub append_pages : ℕ → List String → Option String → Fuelled (List String)
  append_pages fuel apps none = some (ok apps)
  append_pages zero apps (some link) = none
  append_pages (suc fuel) apps (some link) =
      next (some (server.next_page_of link)) (λ r. append_pages fuel (apps ++ r.apps) r.next_page)

  -- `getGroups`; `order` is the order in which the groups arrive on the channel.
  unfoldable pub get_okta_groups :
      (List OktaGroup → List OktaGroup) → ℕ → OktaProvider → Fuelled (List OktaGroup)
  get_okta_groups order fuel p =
      next (some (server.list_application_group_assignments p.app_id p.group_limit)) (λ r.
        next (append_pages fuel r.apps r.next_page)
          (λ apps. some (fetch_groups_async order server.get_group apps)))

  -- `Sync`, with the caches that it leaves; `host` is that of the parsed URL.
  unfoldable pub okta_sync :
      (List OktaGroup → List OktaGroup)
      → (String → Bool)
      → (String → Result String)
      → ℕ
      → OktaProvider
      → OktaCache
      → Fuelled (OktaCache × List Group)
  okta_sync order is_qualified host_of fuel p s = next (get_okta_groups order fuel p) (λ groups.
      let processed : OktaCache = process_okta_groups p server.list_group_users groups s in
      next (some (host_of p.url))
        (λ host. some (ok (processed, okta_groups is_qualified p processed host processed.groups))))
