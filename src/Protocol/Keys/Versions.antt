-- ===== src/Protocol/Keys/Versions.antt =====
-- The client's version caps of internal/protocol (keys.go, acl.go, cluster.go, transaction.go).
use gokafka.Prelude.Int.{ℤ, pos}

abbrev pub ver_metadata : ℤ
ver_metadata = pos 12

abbrev pub ver_produce : ℤ
ver_produce = pos 12

abbrev pub ver_fetch : ℤ
ver_fetch = pos 13

abbrev pub ver_list_offsets : ℤ
ver_list_offsets = pos 3

abbrev pub ver_offset_commit : ℤ
ver_offset_commit = pos 8

abbrev pub ver_offset_fetch : ℤ
ver_offset_fetch = pos 9

abbrev pub ver_offset_fetch_single : ℤ
ver_offset_fetch_single = pos 7

abbrev pub ver_offset_fetch_multi_group : ℤ
ver_offset_fetch_multi_group = pos 8

abbrev pub ver_find_coordinator : ℤ
ver_find_coordinator = pos 3

abbrev pub ver_join_group : ℤ
ver_join_group = pos 6

abbrev pub ver_sync_group : ℤ
ver_sync_group = pos 5

abbrev pub ver_heartbeat : ℤ
ver_heartbeat = pos 4

abbrev pub ver_leave_group : ℤ
ver_leave_group = pos 5

abbrev pub ver_create_topics : ℤ
ver_create_topics = pos 4

abbrev pub ver_delete_topics : ℤ
ver_delete_topics = pos 6

abbrev pub ver_list_groups : ℤ
ver_list_groups = pos 2

abbrev pub ver_describe_groups : ℤ
ver_describe_groups = pos 5

abbrev pub ver_describe_configs : ℤ
ver_describe_configs = pos 4

abbrev pub ver_alter_configs : ℤ
ver_alter_configs = pos 2

abbrev pub ver_create_partitions : ℤ
ver_create_partitions = pos 2

abbrev pub ver_describe_log_dirs : ℤ
ver_describe_log_dirs = pos 5

abbrev pub ver_delete_records : ℤ
ver_delete_records = pos 2

abbrev pub ver_create_delegation_token : ℤ
ver_create_delegation_token = pos 3

abbrev pub ver_renew_delegation_token : ℤ
ver_renew_delegation_token = pos 2

abbrev pub ver_expire_delegation_token : ℤ
ver_expire_delegation_token = pos 2

abbrev pub ver_describe_delegation_token : ℤ
ver_describe_delegation_token = pos 3

abbrev pub ver_elect_leaders : ℤ
ver_elect_leaders = pos 2

abbrev pub ver_alter_partition_reassign : ℤ
ver_alter_partition_reassign = pos 0

abbrev pub ver_list_partition_reassign : ℤ
ver_list_partition_reassign = pos 0

abbrev pub ver_describe_client_quotas : ℤ
ver_describe_client_quotas = pos 1

abbrev pub ver_alter_client_quotas : ℤ
ver_alter_client_quotas = pos 1

abbrev pub ver_describe_user_scram_creds : ℤ
ver_describe_user_scram_creds = pos 0

abbrev pub ver_alter_user_scram_creds : ℤ
ver_alter_user_scram_creds = pos 0

abbrev pub ver_describe_transactions : ℤ
ver_describe_transactions = pos 0

abbrev pub ver_list_transactions : ℤ
ver_list_transactions = pos 2

abbrev pub ver_delete_groups : ℤ
ver_delete_groups = pos 2

abbrev pub ver_incremental_alter_configs : ℤ
ver_incremental_alter_configs = pos 0

abbrev pub ver_offset_delete : ℤ
ver_offset_delete = pos 0

abbrev pub ver_api_versions : ℤ
ver_api_versions = pos 3

abbrev pub ver_sasl_handshake : ℤ
ver_sasl_handshake = pos 1

abbrev pub ver_sasl_authenticate : ℤ
ver_sasl_authenticate = pos 1

abbrev pub ver_consumer_group_heartbeat : ℤ
ver_consumer_group_heartbeat = pos 1

abbrev pub ver_share_group_heartbeat : ℤ
ver_share_group_heartbeat = pos 1

abbrev pub ver_share_group_describe : ℤ
ver_share_group_describe = pos 1

abbrev pub ver_share_fetch : ℤ
ver_share_fetch = pos 2

abbrev pub ver_share_acknowledge : ℤ
ver_share_acknowledge = pos 2

abbrev pub ver_describe_share_group_offsets : ℤ
ver_describe_share_group_offsets = pos 0

abbrev pub ver_alter_share_group_offsets : ℤ
ver_alter_share_group_offsets = pos 0

abbrev pub ver_delete_share_group_offsets : ℤ
ver_delete_share_group_offsets = pos 0

abbrev pub ver_create_acls : ℤ
ver_create_acls = pos 1

abbrev pub ver_describe_acls : ℤ
ver_describe_acls = pos 1

abbrev pub ver_delete_acls : ℤ
ver_delete_acls = pos 1

abbrev pub ver_describe_cluster : ℤ
ver_describe_cluster = pos 1

abbrev pub ver_init_producer_id : ℤ
ver_init_producer_id = pos 0

abbrev pub ver_add_offsets_to_txn : ℤ
ver_add_offsets_to_txn = pos 3

abbrev pub ver_txn_offset_commit : ℤ
ver_txn_offset_commit = pos 3

abbrev pub ver_add_partitions_txn : ℤ
ver_add_partitions_txn = pos 1

abbrev pub ver_end_txn : ℤ
ver_end_txn = pos 5
