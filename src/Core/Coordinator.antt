-- ===== src/Core/Coordinator.antt =====
-- The lookup of one group, transaction or share coordinator:
-- crates/kafka-driver-core/src/coordinator.
mod State
mod Admission
mod Outcome
pub mod Validity
pub mod Epochs
pub mod Observations
pub mod Revocation
unfoldable pub use State.*
unfoldable pub use Admission.*
unfoldable pub use Outcome.*

unfoldable pub apply :
    CoordinatorMachine → CoordinatorInput → CoordinatorMachine × CoordinatorTransition
unfolding resolve refresh_at invalidate withdraw succeed fail reject retry_elapsed
apply m (resolve_input operation) = resolve m operation
apply m (refresh_input operation) = refresh_at m operation
apply m (invalidate_input route observed_at operation) = invalidate m route observed_at operation
apply m (withdraw_input route operation) = withdraw m route operation
apply m (discovery_succeeded operation epoch broker_id endpoint evidence followup_operation) =
    succeed m operation epoch broker_id endpoint evidence followup_operation
apply m (discovery_failed operation epoch followup_operation) =
    fail m operation epoch followup_operation
apply m (discovery_rejected operation epoch now followup_operation) =
    reject m operation epoch now followup_operation
apply m (retry_elapsed_input operation epoch now retry_operation) =
    retry_elapsed m operation epoch now retry_operation
