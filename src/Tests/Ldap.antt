-- ===== src/Tests/Ldap.antt =====
-- The LDAP code on a directory in memory.
use group_sync_operator.Prelude.{
  String, ◌≡◌, ◌↔◌, refl, true, false, not, ◌&&◌, ◌⊎◌, some, List, [], ◌∷◌, Exec, Result, ok, pure,
  member, inl,
}
use mathlib.Core.List.{Sublistᴰ}
use group_sync_operator.Prelude.Dict.{lookup}
use group_sync_operator.Cluster.{Group}
use group_sync_operator.Ldap.Directory.{Directory}
use group_sync_operator.Ldap.Directory.Memory.{Entry, Request, memory_directory}
use group_sync_operator.Ldap.Mappers.{GroupNameMapper, dn_mapper, user_defined_mapper, union_mapper}
use group_sync_operator.Ldap.Mappers.Names.{FirstName, union_mapper_iff}
use group_sync_operator.Ldap.Detectors.{Detector}
use group_sync_operator.Ldap.Handlers.{create_error_handler}
use group_sync_operator.Constants.{ldap_host_label, ldap_url_annotation, ldap_uid_annotation}
use group_sync_operator.Ldap.Listers.{
  whitelist_lister, blacklist_lister, Mapped, all_openshift_lister, list_marked,
  validate_group_annotations,
}
use group_sync_operator.Ldap.Listers.Listed.{
  Source, blacklist_lister_result, all_openshift_lister_sound,
}
use group_sync_operator.Ldap.AugmentedAd.{AugmentedConfig}
use group_sync_operator.Ldap.Ad
use group_sync_operator.Ldap.Ad.{AdConfig, AdCache, new_ad_cache, ad_list_groups}
use group_sync_operator.Ldap.Ad.Members.{DistinctDns, answered, extract_members_result}
use group_sync_operator.Ldap.Ad.Population.{
  is_named, is_named_by, ad_list_groups_result, ad_list_groups-extract_members,
}
use group_sync_operator.Ldap.Ad.{
  is_entry_present, gather, add_entries, add_entry, memberships, add_users,
}
use group_sync_operator.Ldap.Rfc2307
use group_sync_operator.Ldap.Rfc2307.{
  Rfc2307, Caches, new_caches, group_entry_for, member_uids, list_groups, group_uid,
}
use group_sync_operator.Ldap.Rfc2307.Members.{
  IsSound, all_tolerated, entries_found, extract_members_iff,
}
use group_sync_operator.Ldap.Rfc2307.Tolerance.{configured, extract_members-out_of_scope}
use group_sync_operator.Ldap.Rfc2307.Listing.{list_groups-group_entry_for}

abbrev ann : Entry
ann = record {
  dn = "cn=ann";
  attributes = ("uid", "ann" ∷ []) ∷ ("memberOf", "dev" ∷ "ops" ∷ []) ∷ [];
}

abbrev bob : Entry
bob = record { dn = "cn=bob"; attributes = ("uid", "bob" ∷ []) ∷ ("memberOf", "dev" ∷ []) ∷ [] }

abbrev dev : Entry
dev = record {
  dn = "cn=dev";
  attributes = ("gid", "dev" ∷ []) ∷ ("member", "bob" ∷ "ann" ∷ "eve" ∷ []) ∷ [];
}

-- The users with their memberships, and the users below a group that names its members.
abbrev people : Directory Entry String Request
people = memory_directory (ann ∷ bob ∷ [])

abbrev office : Directory Entry String Request
office = memory_directory (ann ∷ bob ∷ dev ∷ [])

abbrev mappings : List (GroupNameMapper (Unit {0}))
mappings = user_defined_mapper (("ops", "operators") ∷ []) ∷ dn_mapper ∷ []

union_mapper_iff_example :
    (union_mapper mappings "dev" tt ≡ (ok "dev", tt)) ↔ FirstName "dev" "dev" tt mappings tt
union_mapper_iff_example = union_mapper_iff mappings "dev" "dev" tt tt

abbrev knows : Detector (Unit {0})
knows uid = pure (member uid ("dev" ∷ []))

abbrev detectors : List (Detector (Unit {0}))
detectors = knows ∷ knows ∷ []

blacklist_lister_result_example :
    (ys : List String) × (blacklist_lister {S = Unit {0}}
        ("ops" ∷ [])
        (whitelist_lister ("dev" ∷ "ops" ∷ []))
        tt
      ≡ (ok ys, tt))
    × ((n : String) → member n ys ≡ (member n ("dev" ∷ "ops" ∷ []) && not (member n ("ops" ∷ []))))
    × Sublistᴰ ys ("dev" ∷ "ops" ∷ [])
unfolding whitelist_lister
blacklist_lister_result_example =
    blacklist_lister_result ("ops" ∷ []) (whitelist_lister ("dev" ∷ "ops" ∷ [])) tt tt
      ("dev" ∷ "ops" ∷ []) refl

abbrev server : String
server = "ldap.example.com:389"

abbrev split : String → Result (String × String)
split s = ok ("ldap.example.com", "389")

abbrev marked : Group
marked = record {
  name = "developers";
  uid = "1";
  labels = some ((ldap_host_label, "ldap.example.com") ∷ []);
  annotations = some ((ldap_url_annotation, server) ∷ (ldap_uid_annotation, "dev") ∷ []);
  users = [];
}

abbrev marked_groups : String → String → Exec (Unit {0}) (List Group)
marked_groups k v = pure (marked ∷ [])

abbrev unmapped : Mapped (Unit {0})
unmapped = record { client = tt; names = [] }

abbrev marked_lister : Exec (Mapped (Unit {0})) (List String)
marked_lister = all_openshift_lister split marked_groups [] server

all_openshift_lister_sound_example :
    (h : String × String) × (split server ≡ ok h)
    × (gs : List Group) × ((marked_groups ldap_host_label h.0 tt).0 ≡ ok gs)
    × ((lookup "dev" unmapped.names ≡ some "developers") ⊎ Source [] server gs "dev" "developers")
unfolding all_openshift_lister list_marked validate_group_annotations
all_openshift_lister_sound_example =
    all_openshift_lister_sound split marked_groups [] server unmapped ("dev" ∷ []) "dev"
      "developers" refl refl

abbrev ad_config : AdConfig String
ad_config = record {
  user_query = "";
  group_membership_attributes = "memberOf" ∷ [];
  user_name_attributes = "uid" ∷ [];
}

abbrev team : List Entry
team = ann ∷ bob ∷ []

extract_members_result_example :
    DistinctDns people team
    × ((x : Entry)
        → is_entry_present people team x ≡ answered people ad_config ("memberOf" ∷ []) "dev" x)
unfolding Ad.extract_members gather add_entries add_entry is_entry_present
extract_members_result_example =
    extract_members_result people ad_config "dev" new_ad_cache team refl refl

ad_list_groups_result_example :
    (groups : List String) × ((ad_list_groups people ad_config new_ad_cache).0 ≡ ok groups)
    × ((uid : String) → member uid groups ≡ is_named people ad_config team uid)
ad_list_groups_result_example = ad_list_groups_result people ad_config team refl

ad_list_groups-extract_members_example :
    (members : List Entry) × (Ad.extract_members people ad_config "dev"
        (ad_list_groups people ad_config new_ad_cache).1
      ≡ (ok members, (ad_list_groups people ad_config new_ad_cache).1))
    × ((x : Entry) → is_entry_present people members x ≡ is_named_by people ad_config team "dev" x)
unfolding memberships
ad_list_groups-extract_members_example =
    ad_list_groups-extract_members people ad_config team "dev" refl refl

abbrev rfc2307_config : Rfc2307 String
rfc2307_config = record {
  group_query = record { query = ""; query_attribute = "gid" };
  group_name_attributes = "gid" ∷ [];
  group_membership_attributes = "member" ∷ [];
  user_query = record { query = ""; query_attribute = "uid" };
  user_name_attributes = "uid" ∷ [];
  error_handler = create_error_handler (some (false, true));
}

abbrev listed_in_dev : List String
listed_in_dev = "bob" ∷ "ann" ∷ "eve" ∷ []

extract_members_iff_example :
    (((Rfc2307.extract_members office rfc2307_config "dev" new_caches).0 ≡ ok (bob ∷ ann ∷ [])) ↔ (
      (all_tolerated office rfc2307_config "dev"
          (member_uids office rfc2307_config ("member" ∷ []) dev)
        ≡ true)
      × (entries_found office rfc2307_config (member_uids office rfc2307_config ("member" ∷ []) dev)
          ≡ bob ∷ ann ∷ [])))
    × IsSound office rfc2307_config
        (Rfc2307.extract_members office rfc2307_config "dev" new_caches).1
unfolding group_entry_for
extract_members_iff_example =
    extract_members_iff office rfc2307_config "dev" new_caches dev (bob ∷ ann ∷ [])
      (λ uid u h. absurd (cc)) refl

extract_members-out_of_scope_example :
    Rfc2307.extract_members office (configured rfc2307_config true true) "dev" new_caches
    ≡ Rfc2307.extract_members office (configured rfc2307_config false true) "dev" new_caches
extract_members-out_of_scope_example =
    extract_members-out_of_scope office rfc2307_config true "dev" new_caches

-- The directory that holds the groups alone.
abbrev groups_only : Directory Entry String Request
groups_only = memory_directory (dev ∷ [])

list_groups-group_entry_for_example :
    (g : Entry) × (group_entry_for groups_only rfc2307_config "dev"
        (list_groups groups_only rfc2307_config new_caches).1
      ≡ (ok g, (list_groups groups_only rfc2307_config new_caches).1))
    × (group_uid groups_only rfc2307_config g ≡ "dev")
unfolding list_groups Rfc2307.list_entries
list_groups-group_entry_for_example =
    list_groups-group_entry_for groups_only rfc2307_config new_caches ("dev" ∷ []) "dev" refl
      (inl refl)

abbrev augmented_config : AugmentedConfig String
augmented_config = record {
  ad = ad_config;
  group_query = record { query = ""; query_attribute = "gid" };
  group_name_attributes = "gid" ∷ [];
}
