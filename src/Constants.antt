-- ===== src/Constants.antt =====
-- pkg/constants/constants.go and pkg/provider/ldap/helpers/consts.go: the keys of the labels and
-- annotations.
use group_sync_operator.Prelude.{String}

abbrev pub sync_timestamp : String
sync_timestamp = "group-sync-operator.redhat-cop.io/sync-time"

abbrev pub sync_source_host : String
sync_source_host = "group-sync-operator.redhat-cop.io/sync.source.host"

abbrev pub sync_source_uid : String
sync_source_uid = "group-sync-operator.redhat-cop.io/sync.source.uid"

abbrev pub sync_provider : String
sync_provider = "group-sync-operator.redhat-cop.io/sync-provider"

abbrev pub hierarchy_children : String
hierarchy_children = "hierarchy_children"

abbrev pub hierarchy_parent : String
hierarchy_parent = "hierarchy_parent"

abbrev pub hierarchy_parents : String
hierarchy_parents = "hierarchy_parents"

abbrev pub ldap_host_label : String
ldap_host_label = "openshift.io/ldap.host"

abbrev pub ldap_url_annotation : String
ldap_url_annotation = "openshift.io/ldap.url"

abbrev pub ldap_uid_annotation : String
ldap_uid_annotation = "openshift.io/ldap.uid"

abbrev pub ldap_sync_time_annotation : String
ldap_sync_time_annotation = "openshift.io/ldap.sync-time"
