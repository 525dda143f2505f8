-- ===== src/Policies.antt =====
-- rm/policymanager/policies: the policies behind the interface of PolicyManager.antt.
pub mod Mapped
pub mod Counters
pub mod Quota
pub mod NoPolicy
pub mod SecurityAware
pub mod PuChoice
pub mod PuProgressive
pub mod MinCores
pub mod Rand
pub mod Factory
pub mod Uncontained
