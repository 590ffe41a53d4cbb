-- ===== src/Protocol/Keys.antt =====
-- internal/protocol/versions.go: which version the client speaks for an API.
pub mod Api
pub mod Versions
pub mod Flex
pub mod Negotiate
use gokafka.Prelude.{if◌then◌else◌}
use gokafka.Prelude.Int.{ℤ, negsuc, eqb_ℤ}
use gokafka.Protocol.Keys.Api.{
  api_add_offsets_to_txn, api_add_partitions_txn, api_alter_client_quotas, api_alter_configs,
  api_alter_partition_reassign, api_alter_share_group_offsets, api_alter_user_scram_creds,
  api_api_versions, api_consumer_group_heartbeat, api_create_acls, api_create_delegation_token,
  api_create_partitions, api_create_topics, api_delete_acls, api_delete_groups, api_delete_records,
  api_delete_share_group_offsets, api_delete_topics, api_describe_acls, api_describe_client_quotas,
  api_describe_cluster, api_describe_configs, api_describe_delegation_token, api_describe_groups,
  api_describe_log_dirs, api_describe_share_group_offsets, api_describe_transactions,
  api_describe_user_scram_creds, api_elect_leaders, api_end_txn, api_expire_delegation_token,
  api_fetch, api_find_coordinator, api_heartbeat, api_incremental_alter_configs,
  api_init_producer_id, api_join_group, api_leave_group, api_list_groups, api_list_offsets,
  api_list_partition_reassign, api_list_transactions, api_metadata, api_offset_commit,
  api_offset_delete, api_offset_fetch, api_produce, api_renew_delegation_token,
  api_sasl_authenticate, api_sasl_handshake, api_share_acknowledge, api_share_fetch,
  api_share_group_describe, api_share_group_heartbeat, api_sync_group, api_txn_offset_commit,
}
use gokafka.Protocol.Keys.Versions.{
  ver_add_offsets_to_txn, ver_add_partitions_txn, ver_alter_client_quotas, ver_alter_configs,
  ver_alter_partition_reassign, ver_alter_share_group_offsets, ver_alter_user_scram_creds,
  ver_api_versions, ver_consumer_group_heartbeat, ver_create_acls, ver_create_delegation_token,
  ver_create_partitions, ver_create_topics, ver_delete_acls, ver_delete_groups, ver_delete_records,
  ver_delete_share_group_offsets, ver_delete_topics, ver_describe_acls, ver_describe_client_quotas,
  ver_describe_cluster, ver_describe_configs, ver_describe_delegation_token, ver_describe_groups,
  ver_describe_log_dirs, ver_describe_share_group_offsets, ver_describe_transactions,
  ver_describe_user_scram_creds, ver_elect_leaders, ver_end_txn, ver_expire_delegation_token,
  ver_fetch, ver_find_coordinator, ver_heartbeat, ver_incremental_alter_configs,
  ver_init_producer_id, ver_join_group, ver_leave_group, ver_list_groups, ver_list_offsets,
  ver_list_partition_reassign, ver_list_transactions, ver_metadata, ver_offset_commit,
  ver_offset_delete, ver_offset_fetch, ver_produce, ver_renew_delegation_token,
  ver_sasl_authenticate, ver_sasl_handshake, ver_share_acknowledge, ver_share_fetch,
  ver_share_group_describe, ver_share_group_heartbeat, ver_sync_group, ver_txn_offset_commit,
}

-- ClientVersion; -1 is an API that the client does not implement.
unfoldable pub client_version : ℤ → ℤ
client_version key =
    if eqb_ℤ key api_produce
    then ver_produce
    else if eqb_ℤ key api_fetch
    then ver_fetch
    else if eqb_ℤ key api_list_offsets
    then ver_list_offsets
    else if eqb_ℤ key api_metadata
    then ver_metadata
    else if eqb_ℤ key api_offset_commit
    then ver_offset_commit
    else if eqb_ℤ key api_offset_fetch
    then ver_offset_fetch
    else if eqb_ℤ key api_find_coordinator
    then ver_find_coordinator
    else if eqb_ℤ key api_join_group
    then ver_join_group
    else if eqb_ℤ key api_heartbeat
    then ver_heartbeat
    else if eqb_ℤ key api_leave_group
    then ver_leave_group
    else if eqb_ℤ key api_sync_group
    then ver_sync_group
    else if eqb_ℤ key api_create_topics
    then ver_create_topics
    else if eqb_ℤ key api_delete_topics
    then ver_delete_topics
    else if eqb_ℤ key api_api_versions
    then ver_api_versions
    else if eqb_ℤ key api_list_groups
    then ver_list_groups
    else if eqb_ℤ key api_describe_groups
    then ver_describe_groups
    else if eqb_ℤ key api_describe_configs
    then ver_describe_configs
    else if eqb_ℤ key api_alter_configs
    then ver_alter_configs
    else if eqb_ℤ key api_create_partitions
    then ver_create_partitions
    else if eqb_ℤ key api_delete_groups
    then ver_delete_groups
    else if eqb_ℤ key api_delete_records
    then ver_delete_records
    else if eqb_ℤ key api_elect_leaders
    then ver_elect_leaders
    else if eqb_ℤ key api_alter_partition_reassign
    then ver_alter_partition_reassign
    else if eqb_ℤ key api_list_partition_reassign
    then ver_list_partition_reassign
    else if eqb_ℤ key api_create_delegation_token
    then ver_create_delegation_token
    else if eqb_ℤ key api_renew_delegation_token
    then ver_renew_delegation_token
    else if eqb_ℤ key api_expire_delegation_token
    then ver_expire_delegation_token
    else if eqb_ℤ key api_describe_delegation_token
    then ver_describe_delegation_token
    else if eqb_ℤ key api_describe_log_dirs
    then ver_describe_log_dirs
    else if eqb_ℤ key api_describe_client_quotas
    then ver_describe_client_quotas
    else if eqb_ℤ key api_alter_client_quotas
    then ver_alter_client_quotas
    else if eqb_ℤ key api_alter_user_scram_creds
    then ver_alter_user_scram_creds
    else if eqb_ℤ key api_describe_user_scram_creds
    then ver_describe_user_scram_creds
    else if eqb_ℤ key api_describe_transactions
    then ver_describe_transactions
    else if eqb_ℤ key api_list_transactions
    then ver_list_transactions
    else if eqb_ℤ key api_incremental_alter_configs
    then ver_incremental_alter_configs
    else if eqb_ℤ key api_offset_delete
    then ver_offset_delete
    else if eqb_ℤ key api_create_acls
    then ver_create_acls
    else if eqb_ℤ key api_describe_acls
    then ver_describe_acls
    else if eqb_ℤ key api_delete_acls
    then ver_delete_acls
    else if eqb_ℤ key api_describe_cluster
    then ver_describe_cluster
    else if eqb_ℤ key api_sasl_handshake
    then ver_sasl_handshake
    else if eqb_ℤ key api_sasl_authenticate
    then ver_sasl_authenticate
    else if eqb_ℤ key api_init_producer_id
    then ver_init_producer_id
    else if eqb_ℤ key api_add_offsets_to_txn
    then ver_add_offsets_to_txn
    else if eqb_ℤ key api_txn_offset_commit
    then ver_txn_offset_commit
    else if eqb_ℤ key api_add_partitions_txn
    then ver_add_partitions_txn
    else if eqb_ℤ key api_end_txn
    then ver_end_txn
    else if eqb_ℤ key api_consumer_group_heartbeat
    then ver_consumer_group_heartbeat
    else if eqb_ℤ key api_share_group_heartbeat
    then ver_share_group_heartbeat
    else if eqb_ℤ key api_share_group_describe
    then ver_share_group_describe
    else if eqb_ℤ key api_share_fetch
    then ver_share_fetch
    else if eqb_ℤ key api_share_acknowledge
    then ver_share_acknowledge
    else if eqb_ℤ key api_describe_share_group_offsets
    then ver_describe_share_group_offsets
    else if eqb_ℤ key api_alter_share_group_offsets
    then ver_alter_share_group_offsets
    else if eqb_ℤ key api_delete_share_group_offsets
    then ver_delete_share_group_offsets
    else negsuc 0
