-- ===== src/Integration.antt =====
-- The helpers of the integration tests: integration/utils.go, integration/registry.go and
-- integration/openshift.go.
pub mod Environ
pub mod Checks
pub mod Registry
pub mod Fixture
pub mod Cluster
pub mod Master
