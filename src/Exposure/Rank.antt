-- ===== src/Exposure/Rank.antt =====
-- nabla/api/homelab_exposure.py: when two messages are the same one.
use fastapi_sample.Prelude.{ℕ, Bool, eqb}
use fastapi_sample.Exposure.Reasons.{
  Reason, edge_unspecified, observation_unconfigured, status_unconfirmed, local_configuration,
  ingress_missing, ingress_unexpected, access_on_direct, access_unconfigured, access_unconfirmed,
  access_missing, access_without_policy, access_public, origin_mismatch, direct_internal_name,
  direct_exposure, anonymous_exposure, policy_unconfirmed, policy_missing, policy_unassigned,
  token_unconfirmed, token_missing, token_disabled, token_mismatch, account_unconfigured,
  control_unverified, control_unavailable, private_tunnel, private_access,
}

-- The place of a message in the list of its type.
unfoldable pub rank : Reason → ℕ
rank edge_unspecified = 0
rank observation_unconfigured = 1
rank status_unconfirmed = 2
rank local_configuration = 3
rank ingress_missing = 4
rank ingress_unexpected = 5
rank access_on_direct = 6
rank access_unconfigured = 7
rank access_unconfirmed = 8
rank access_missing = 9
rank access_without_policy = 10
rank access_public = 11
rank origin_mismatch = 12
rank direct_internal_name = 13
rank direct_exposure = 14
rank anonymous_exposure = 15
rank policy_unconfirmed = 16
rank policy_missing = 17
rank policy_unassigned = 18
rank token_unconfirmed = 19
rank token_missing = 20
rank token_disabled = 21
rank token_mismatch = 22
rank account_unconfigured = 23
rank control_unverified = 24
rank control_unavailable = 25
rank private_tunnel = 26
rank private_access = 27

unfoldable pub same_reason : Reason → Reason → Bool
same_reason a b = eqb (rank a) (rank b)
