-- ===== src/Cluster.antt =====
-- The cluster (src/internal/server/clusterserver): the shard map with its ring of virtual nodes, the
-- replicated state machine, the membership, the plan of migrations, the transfer of shards and who may call.
pub mod Sorted
pub mod ShardMap
pub mod Fsm
pub mod Membership
pub mod Cleanup
pub mod Rebalance
pub mod Replication
pub mod Interceptor
