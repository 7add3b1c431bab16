-- ===== src/GitLab/Synced.antt =====
-- What the `Sync` of pkg/syncer/gitlab.go returns, and where it does not end.
use group_sync_operator.Prelude.{
  ℕ, suc, leb, ◌+◌, ◌<◌, String, ◌≡◌, refl, Bool, true, false, none, some, List, ◌∷◌, ◌++◌, map,
  length, ok, All, All-map,
}
use group_sync_operator.Api.{GitLabProvider}
use group_sync_operator.Syncer.{is_group_allowed}
use group_sync_operator.Credentials.{Url, Fields}
use group_sync_operator.Collect.Collected.{kept, collect-map, collect-none}
use group_sync_operator.GitLab.{Answer, gitlab_members}
use group_sync_operator.GitLab.Pages.{Serves, concat, gitlab_groups_result, gitlab_members_diverges}
use group_sync_operator.GitLab.Groups.{
  GitLabGroup, GitLabServer, gitlab_group, make_gitlab_group, gitlab_sync,
}

module _ (server : GitLabServer) (p : GitLabProvider) where
  abbrev pub gitlab_is_allowed : GitLabGroup → Bool
  gitlab_is_allowed g = is_group_allowed g.name p.groups

  -- The members of a group are answered on one page.
  abbrev pub OnOnePage : GitLabGroup → List String → Type 0
  OnOnePage g names =
      (r : Answer String) × (server.list_group_members g.id 1 ≡ ok r)
      × (leb r.total_pages r.current_page ≡ true)
      × (r.items ≡ names)

  make_gitlab_group_result :
      (fuel : ℕ) (url : Url) (g : GitLabGroup) (names : List String)
      → OnOnePage g names
      → make_gitlab_group server (suc fuel) (some url) g ≡ some (ok (gitlab_group url g names))
  unfolding make_gitlab_group gitlab_members
  make_gitlab_group_result fuel url g names h = rw (h.1, h.2, h.3) refl

  -- When the groups are answered in pages numbered from 1 and the members of each allowed group on
  -- one page, `Sync` ends without an error, for every fuel of at least the number of pages of groups,
  -- and returns one group for each allowed group, in order, with the user names of its members.
  pub gitlab_sync_result :
      (fuel : ℕ) (s : Fields) (url : Url) (first : List GitLabGroup)
      (rest : List (List GitLabGroup)) (members : GitLabGroup → List String)
      → s.url ≡ some url
      → Serves server.list_groups (1 + length rest) 1 (first ∷ rest)
      → length rest < suc fuel
      → All
          (λ g. gitlab_is_allowed g ≡ true → OnOnePage g (members g))
          (concat server.list_groups (first ∷ rest))
      → gitlab_sync server (suc fuel) p s
        ≡ some (
            ok (
              map
                (λ g. gitlab_group url g (members g))
                (kept gitlab_is_allowed (concat server.list_groups (first ∷ rest)))))
  unfolding gitlab_sync
  gitlab_sync_result fuel s url first rest members hu hs hf hm =
      rw (hu, gitlab_groups_result server.list_groups first rest (suc fuel) hs hf)
        (collect-map gitlab_is_allowed (make_gitlab_group server (suc fuel) (some url))
          (λ g. gitlab_group url g (members g)) (concat server.list_groups (first ∷ rest))
          (All-map (λ g h a. make_gitlab_group_result fuel url g (members g) (h a)) _ hm))

  not_made :
      (fuel : ℕ) (url : Url) (g : GitLabGroup) (r : Answer String)
      → server.list_group_members g.id 1 ≡ ok r
      → leb r.total_pages r.current_page ≡ false
      → make_gitlab_group server (suc fuel) (some url) g ≡ none
  unfolding make_gitlab_group
  not_made fuel url g r q m =
      rw (gitlab_members_diverges (server.list_group_members g.id) r (suc fuel) q m) refl

  -- When the groups are answered in pages and an allowed group among them has members on more than
  -- one page, after groups whose members are each on one, `Sync` does not end: it has no result for
  -- any fuel.
  pub gitlab_sync_diverges :
      (fuel : ℕ) (s : Fields) (url : Url) (first : List GitLabGroup)
      (rest : List (List GitLabGroup)) (before after : List GitLabGroup) (g : GitLabGroup)
      (members : GitLabGroup → List String) (r : Answer String)
      → s.url ≡ some url
      → Serves server.list_groups (1 + length rest) 1 (first ∷ rest)
      → length rest < suc fuel
      → concat server.list_groups (first ∷ rest) ≡ before ++ g ∷ after
      → All (λ b. OnOnePage b (members b)) before
      → gitlab_is_allowed g ≡ true
      → server.list_group_members g.id 1 ≡ ok r
      → leb r.total_pages r.current_page ≡ false
      → gitlab_sync server (suc fuel) p s ≡ none
  unfolding gitlab_sync
  gitlab_sync_diverges fuel s url first rest before after g members r hu hs hf hc hb k q m =
      rw (hu, gitlab_groups_result server.list_groups first rest (suc fuel) hs hf, hc)
        (collect-none gitlab_is_allowed (make_gitlab_group server (suc fuel) (some url)) before
          after g
          (All-map (λ b h. (_, make_gitlab_group_result fuel url b (members b) h)) before hb) k
          (not_made fuel url g r q m))
