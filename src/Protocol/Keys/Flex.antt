-- ===== src/Protocol/Keys/Flex.antt =====
-- internal/protocol/flex.go: which header goes with an API version.
use gokafka.Prelude.{Bool, false, ◌||◌, if◌then◌else◌}
use gokafka.Prelude.Int.{ℤ, eqb_ℤ, at_least}
use gokafka.Protocol.Keys.Api.{
  api_add_offsets_to_txn, api_add_partitions_txn, api_alter_client_quotas, api_alter_configs,
  api_alter_partition_reassign, api_alter_share_group_offsets, api_alter_user_scram_creds,
  api_api_versions, api_consumer_group_heartbeat, api_create_acls, api_create_delegation_token,
  api_create_partitions, api_create_topics, api_delete_acls, api_delete_groups, api_delete_records,
  api_delete_share_group_offsets, api_delete_topics, api_describe_acls, api_describe_client_quotas,
  api_describe_cluster, api_describe_configs, api_describe_delegation_token, api_describe_groups,
  api_describe_log_dirs, api_describe_share_group_offsets, api_describe_transactions,
  api_describe_user_scram_creds, api_elect_leaders, api_end_txn, api_expire_delegation_token,
  api_fetch, api_find_coordinator, api_heartbeat, api_incremental_alter_configs,
  api_init_producer_id, api_join_group, api_leave_group, api_list_groups, api_list_offsets,
  api_list_partition_reassign, api_list_transactions, api_metadata, api_offset_commit,
  api_offset_fetch, api_produce, api_renew_delegation_token, api_sasl_authenticate,
  api_share_acknowledge, api_share_fetch, api_share_group_describe, api_share_group_heartbeat,
  api_sync_group, api_txn_offset_commit,
}

unfoldable pub flexible_request_header : ℤ → ℤ → Bool
flexible_request_header key version =
    if eqb_ℤ key api_metadata
    then at_least 9 version
    else if eqb_ℤ key api_api_versions
    then at_least 3 version
    else if eqb_ℤ key api_produce
    then at_least 9 version
    else if eqb_ℤ key api_fetch
    then at_least 12 version
    else if eqb_ℤ key api_list_offsets
    then at_least 6 version
    else if eqb_ℤ key api_offset_commit
    then at_least 8 version
    else if eqb_ℤ key api_offset_fetch
    then at_least 6 version
    else if eqb_ℤ key api_find_coordinator
    then at_least 3 version
    else if eqb_ℤ key api_join_group
    then at_least 6 version
    else if eqb_ℤ key api_sync_group
    then at_least 4 version
    else if eqb_ℤ key api_heartbeat || eqb_ℤ key api_leave_group
    then at_least 4 version
    else if eqb_ℤ key api_create_topics
    then at_least 5 version
    else if eqb_ℤ key api_delete_topics
    then at_least 4 version
    else if eqb_ℤ key api_list_groups
    then at_least 3 version
    else if eqb_ℤ key api_describe_groups
    then at_least 5 version
    else if eqb_ℤ key api_describe_configs
    then at_least 4 version
    else if eqb_ℤ key api_alter_configs
    then at_least 2 version
    else if eqb_ℤ key api_create_partitions || eqb_ℤ key api_delete_groups
    then at_least 2 version
    else if eqb_ℤ key api_delete_records
    then at_least 2 version
    else if eqb_ℤ key api_elect_leaders
    then at_least 2 version
    else if eqb_ℤ key api_alter_partition_reassign || eqb_ℤ key api_list_partition_reassign
    then at_least 0 version
    else if eqb_ℤ key api_create_delegation_token || eqb_ℤ key api_describe_delegation_token
    then at_least 2 version
    else if eqb_ℤ key api_renew_delegation_token || eqb_ℤ key api_expire_delegation_token
    then at_least 2 version
    else if eqb_ℤ key api_describe_log_dirs
    then at_least 2 version
    else if eqb_ℤ key api_describe_client_quotas || eqb_ℤ key api_alter_client_quotas
    then at_least 1 version
    else if eqb_ℤ key api_alter_user_scram_creds || eqb_ℤ key api_describe_user_scram_creds
    then at_least 0 version
    else if eqb_ℤ key api_describe_transactions || eqb_ℤ key api_list_transactions
    then at_least 0 version
    else if eqb_ℤ key api_incremental_alter_configs
    then at_least 1 version
    else if eqb_ℤ key api_create_acls || eqb_ℤ key api_describe_acls || eqb_ℤ key api_delete_acls
    then at_least 2 version
    else if eqb_ℤ key api_sasl_authenticate
    then at_least 3 version
    else if eqb_ℤ key api_describe_cluster
    then at_least 1 version
    else if eqb_ℤ key api_init_producer_id
    then at_least 2 version
    else if eqb_ℤ key api_add_offsets_to_txn || eqb_ℤ key api_txn_offset_commit
    then at_least 3 version
    else if eqb_ℤ key api_add_partitions_txn
    then at_least 3 version
    else if eqb_ℤ key api_end_txn
    then at_least 3 version
    else if eqb_ℤ key api_consumer_group_heartbeat
    then at_least 0 version
    else if eqb_ℤ key api_share_group_heartbeat
        || eqb_ℤ key api_share_group_describe
        || eqb_ℤ key api_share_fetch
        || eqb_ℤ key api_share_acknowledge
    then at_least 1 version
    else if eqb_ℤ key api_describe_share_group_offsets
        || eqb_ℤ key api_alter_share_group_offsets
        || eqb_ℤ key api_delete_share_group_offsets
    then at_least 0 version
    else false

-- ApiVersions responses keep the plain header at every version.
unfoldable pub flexible_response_header : ℤ → ℤ → Bool
unfolding flexible_request_header
flexible_response_header key version =
    if eqb_ℤ key api_api_versions then false else flexible_request_header key version
