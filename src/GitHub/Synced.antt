-- ===== src/GitHub/Synced.antt =====
-- What the `Sync` of pkg/syncer/github.go returns.
use group_sync_operator.Prelude.{
  ℕ, ◌≤◌, String, ◌≡◌, ◌↔◌, refl, Bool, true, some, List, map, All, All-map, length, ok,
}
use group_sync_operator.Prelude.Int.{ℤ}
use group_sync_operator.Prelude.Dict.{Dict}
use group_sync_operator.Api.{GitHubProvider}
use group_sync_operator.Cluster.{Group}
use group_sync_operator.Syncer.{is_group_allowed}
use group_sync_operator.Credentials.{Url, Fields}
use group_sync_operator.Collect.Collected.{
  next-eq_ok, kept, Made, collect-Made, Made-collect, collect-map,
}
use group_sync_operator.GitHub.Teams.{
  Team, GitHubServer, get_organization_teams, list_team_members, identities, github_group,
  github_team, github_sync,
}
use group_sync_operator.GitHub.Paged.{concat, Serves, pages_from_result}

module _ (server : GitHubServer) (p : GitHubProvider) where
  -- The teams whose name is allowed.
  abbrev pub is_allowed : Team → Bool
  is_allowed t = is_group_allowed t.name p.teams

  -- The members of the team, if it is allowed, are served in these pages.
  abbrev pub MembersServed : ℤ → ℕ → (Team → List (List String)) → Team → Type 0
  MembersServed organization fuel members t =
      is_allowed t ≡ true
      → Serves (server.list_team_members_by_id organization t.id) 0 (members t)
        × (length (members t) ≤ fuel)

  github_team_result :
      (fuel : ℕ) (url : Url) (organization : ℤ) (ids : Dict String)
      (members : Team → List (List String)) (t : Team)
      → MembersServed organization fuel members t
      → is_allowed t ≡ true
      → github_team server fuel p (some url) organization ids t
        ≡ some (ok (github_group server fuel p ids url.host t (concat (members t))))
  unfolding github_team list_team_members
  github_team_result fuel url organization ids members t m h =
      rw
        (pages_from_result (server.list_team_members_by_id organization t.id) 0 fuel (members t)
          (m h).0 (m h).1)
        refl

  -- When the server answers the organization, its teams in pages, the members of each allowed team in
  -- pages, and the identities if users are mapped, `Sync` ends without an error, for every fuel of at
  -- least the number of pages of each listing, and returns one group for each allowed team, in order,
  -- with the names of all of its members.
  pub github_sync_result :
      (fuel : ℕ) (s : Fields) (url : Url) (organization : ℤ) (ids : Dict String)
      (teams : List (List Team)) (members : Team → List (List String))
      → s.url ≡ some url
      → server.get_organization p.organization ≡ ok organization
      → Serves (server.list_teams p.organization) 0 teams
      → length teams ≤ fuel
      → identities server fuel p ≡ some (ok ids)
      → All (MembersServed organization fuel members) (concat teams)
      → github_sync server fuel p s
        ≡ some (
            ok (
              map
                (λ t. github_group server fuel p ids url.host t (concat (members t)))
                (kept is_allowed (concat teams))))
  unfolding github_sync get_organization_teams
  github_sync_result fuel s url organization ids teams members hu ho ht hf hi hm =
      rw (hu, ho, pages_from_result (server.list_teams p.organization) 0 fuel teams ht hf, hi)
        (collect-map is_allowed (github_team server fuel p (some url) organization ids)
          (λ t. github_group server fuel p ids url.host t (concat (members t))) (concat teams)
          (All-map (λ t. github_team_result fuel url organization ids members t) (concat teams) hm))

  -- `Sync` ends without an error exactly if the organization, its teams, the identities, if users are
  -- mapped, and the members of each allowed team are answered, and the groups that it returns are
  -- then those that are made of the allowed teams, in order.
  github_sync_iff :
      (fuel : ℕ) (s : Fields) (gs : List Group)
      → (github_sync server fuel p s ≡ some (ok gs)) ↔ (
          (organization : ℤ) × (teams : List Team) × (ids : Dict String) × (server.get_organization
              p.organization
            ≡ ok organization)
          × (get_organization_teams server fuel p.organization ≡ some (ok teams))
          × (identities server fuel p ≡ some (ok ids))
          × Made is_allowed
              (github_team server fuel p s.url organization ids)
              (kept is_allowed teams)
              gs)
  unfolding github_sync
  github_sync_iff fuel s gs = (
    λ h.
        let o : _ = next-eq_ok (some (server.get_organization p.organization)) _ gs h in
        let t : _ = next-eq_ok (get_organization_teams server fuel p.organization) _ gs o.2 in
        let i : _ = next-eq_ok (identities server fuel p) _ gs t.2 in
        (
          o.0,
          t.0,
          i.0,
          cc,
          t.1,
          i.1,
          collect-Made is_allowed (github_team server fuel p s.url o.0 i.0) t.0 gs i.2,
        ),
    λ h.
        rw (h.3, h.4, h.5)
          (Made-collect is_allowed (github_team server fuel p s.url h.0 h.2) h.1 gs h.6),
  )
