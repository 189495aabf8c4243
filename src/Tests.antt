-- ===== src/Tests.antt =====
-- The theorems at concrete inputs. A platform of simple functions, with the laws that the theorems
-- ask of the real one, shows that these can hold together.
mod Toy
mod Chains
mod Anchors
mod Executions
mod Sends
mod Correlations
mod Inputs
mod Approvers
mod Remotes
mod Sinks
mod Responses
mod Postures
mod Transfers
mod Watches
mod Starts
