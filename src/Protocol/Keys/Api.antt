-- ===== src/Protocol/Keys/Api.antt =====
-- The request API keys of internal/protocol (keys.go, acl.go, cluster.go, transaction.go).
use gokafka.Prelude.Int.{ℤ, pos}

abbrev pub api_produce : ℤ
api_produce = pos 0

abbrev pub api_fetch : ℤ
api_fetch = pos 1

abbrev pub api_list_offsets : ℤ
api_list_offsets = pos 2

abbrev pub api_metadata : ℤ
api_metadata = pos 3

abbrev pub api_offset_commit : ℤ
api_offset_commit = pos 8

abbrev pub api_offset_fetch : ℤ
api_offset_fetch = pos 9

abbrev pub api_find_coordinator : ℤ
api_find_coordinator = pos 10

abbrev pub api_join_group : ℤ
api_join_group = pos 11

abbrev pub api_heartbeat : ℤ
api_heartbeat = pos 12

abbrev pub api_leave_group : ℤ
api_leave_group = pos 13

abbrev pub api_sync_group : ℤ
api_sync_group = pos 14

abbrev pub api_create_topics : ℤ
api_create_topics = pos 19

abbrev pub api_delete_topics : ℤ
api_delete_topics = pos 20

abbrev pub api_api_versions : ℤ
api_api_versions = pos 18

abbrev pub api_list_groups : ℤ
api_list_groups = pos 16

abbrev pub api_describe_groups : ℤ
api_describe_groups = pos 15

abbrev pub api_describe_configs : ℤ
api_describe_configs = pos 32

abbrev pub api_alter_configs : ℤ
api_alter_configs = pos 33

abbrev pub api_create_partitions : ℤ
api_create_partitions = pos 37

abbrev pub api_describe_log_dirs : ℤ
api_describe_log_dirs = pos 35

abbrev pub api_delete_records : ℤ
api_delete_records = pos 21

abbrev pub api_delete_groups : ℤ
api_delete_groups = pos 42

abbrev pub api_create_delegation_token : ℤ
api_create_delegation_token = pos 38

abbrev pub api_renew_delegation_token : ℤ
api_renew_delegation_token = pos 39

abbrev pub api_expire_delegation_token : ℤ
api_expire_delegation_token = pos 40

abbrev pub api_describe_delegation_token : ℤ
api_describe_delegation_token = pos 41

abbrev pub api_elect_leaders : ℤ
api_elect_leaders = pos 43

abbrev pub api_incremental_alter_configs : ℤ
api_incremental_alter_configs = pos 44

abbrev pub api_alter_partition_reassign : ℤ
api_alter_partition_reassign = pos 45

abbrev pub api_list_partition_reassign : ℤ
api_list_partition_reassign = pos 46

abbrev pub api_offset_delete : ℤ
api_offset_delete = pos 47

abbrev pub api_describe_client_quotas : ℤ
api_describe_client_quotas = pos 48

abbrev pub api_alter_client_quotas : ℤ
api_alter_client_quotas = pos 49

abbrev pub api_describe_user_scram_creds : ℤ
api_describe_user_scram_creds = pos 50

abbrev pub api_alter_user_scram_creds : ℤ
api_alter_user_scram_creds = pos 51

abbrev pub api_describe_transactions : ℤ
api_describe_transactions = pos 65

abbrev pub api_list_transactions : ℤ
api_list_transactions = pos 66

abbrev pub api_sasl_handshake : ℤ
api_sasl_handshake = pos 17

abbrev pub api_sasl_authenticate : ℤ
api_sasl_authenticate = pos 36

abbrev pub api_consumer_group_heartbeat : ℤ
api_consumer_group_heartbeat = pos 68

abbrev pub api_consumer_group_describe : ℤ
api_consumer_group_describe = pos 69

abbrev pub api_share_group_heartbeat : ℤ
api_share_group_heartbeat = pos 76

abbrev pub api_share_group_describe : ℤ
api_share_group_describe = pos 77

abbrev pub api_share_fetch : ℤ
api_share_fetch = pos 78

abbrev pub api_share_acknowledge : ℤ
api_share_acknowledge = pos 79

abbrev pub api_describe_share_group_offsets : ℤ
api_describe_share_group_offsets = pos 90

abbrev pub api_alter_share_group_offsets : ℤ
api_alter_share_group_offsets = pos 91

abbrev pub api_delete_share_group_offsets : ℤ
api_delete_share_group_offsets = pos 92

abbrev pub api_describe_acls : ℤ
api_describe_acls = pos 29

abbrev pub api_create_acls : ℤ
api_create_acls = pos 30

abbrev pub api_delete_acls : ℤ
api_delete_acls = pos 31

abbrev pub api_describe_cluster : ℤ
api_describe_cluster = pos 60

abbrev pub api_init_producer_id : ℤ
api_init_producer_id = pos 22

abbrev pub api_add_offsets_to_txn : ℤ
api_add_offsets_to_txn = pos 25

abbrev pub api_txn_offset_commit : ℤ
api_txn_offset_commit = pos 28

abbrev pub api_add_partitions_txn : ℤ
api_add_partitions_txn = pos 24

abbrev pub api_end_txn : ℤ
api_end_txn = pos 26
