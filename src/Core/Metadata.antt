-- ===== src/Core/Metadata.antt =====
-- Cluster metadata: crates/kafka-driver-core/src/metadata.
mod Partition
mod Topic
mod Snapshot
mod State
mod Revocations
mod Admission
mod Outcome
pub mod Settling
pub mod Steps
pub mod Validity
pub mod Generations
pub mod Leaders
pub mod LeaderEpochs
pub mod Missing
pub mod Withdrawal
unfoldable pub use Partition.*
unfoldable pub use Snapshot.*
unfoldable pub use State.*
unfoldable pub use Revocations.*
unfoldable pub use Admission.*
unfoldable pub use Outcome.*

unfoldable pub apply : MetadataMachine → MetadataInput → MetadataMachine × MetadataTransition
unfolding admit invalidate invalidate_partition succeed fail
apply m (resolve query operation) = admit m query operation current_may_satisfy
apply m (refresh query operation) = admit m query operation must_follow_current
apply m (invalidate_broker_route route observed_at operation) =
    invalidate m route observed_at operation
apply m (invalidate_partition_route route observed_at operation) =
    invalidate_partition m route observed_at operation
apply m (refresh_succeeded operation snapshot followup_operation) =
    succeed m operation snapshot followup_operation
apply m (refresh_failed operation followup_operation) = fail m operation followup_operation
