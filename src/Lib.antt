-- ===== src/Lib.antt =====
-- A model of the operator: the controllers that reconcile compute instances, tenants, cluster orders
-- and host pools, the controllers that report to the fulfillment service, the two providers that
-- provision an instance, and the clients behind them.
--
-- The parts, and how they interact. Reconcile reads a ComputeInstance and hands it to handleUpdate
-- or handleDelete. These mutate one object and return; Reconcile then writes its status. Both hand
-- the provisioning work to a provider: the AAP provider calls the AAP REST API by the AAP client,
-- the EDA provider posts webhooks by the webhook client. The instance's status holds the history
-- of jobs by which a later reconcile finds out what was already asked for.
--
-- The other controllers have the same shape. The instance's controller waits for a tenant, whose
-- controller keeps a namespace and a network for it. The controllers of cluster orders and of host
-- pools keep a namespace and what is in it, and post webhooks by the same webhook client. Each
-- feedback controller reads an object that another controller has written, fetches the record of the
-- fulfillment service that belongs to it, and saves the record when syncing has changed it.
--
-- The files, by the code that they model:
--   Prelude and its children      shared: tests, lists, texts, Go errors and handlers
--   Api.*                         api/v1alpha1: job_types.go (Api/Job), computeinstance_types.go,
--                                 computeinstance_conditions.go and
--                                 computeinstance_virtualmachinereference.go (Api/ComputeInstance,
--                                 Api/Condition), tenant_types.go (Api/Tenant)
--   Api.Kube                      what is called of Kubernetes' libraries, with the laws relied on
--   Strconv                       the parts of Go's strconv and strings that are used
--   TenantNames                   internal/controller/tenant_names.go
--   Webhook                       internal/controller/webhook_common.go
--   Aap                           internal/aap/client.go
--   Provisioning.Provider         internal/provisioning/provider.go
--   Provisioning.Eda              internal/provisioning/eda_provider.go
--   Provisioning.Aap              internal/provisioning/aap_provider.go
--   ComputeInstance.Restart       internal/controller/computeinstance_restart.go
--   ComputeInstance.Tenants       internal/controller/computeinstance_resources.go
--   ComputeInstance.*             internal/controller/computeinstance_controller.go: Jobs (the job
--                                 history), Version, Provisioning, Deprovisioning, Update, Delete,
--                                 Reconcile, Watches; Run holds the state that they share
--   Controller                    what the other controllers share: the object, the cluster's state and
--                                 the calls; the components that a controller creates, and the call
--                                 of a webhook (clusterorder_controller.go); Lookups and Rules are
--                                 rules for handlers
--   Api.ClusterOrder, HostPool    api/v1alpha1: clusterorder_types.go, clusterorder_conditions.go,
--                                 clusterorder_clusterreference.go, hostpool_types.go,
--                                 hostpool_conditions.go, hostpool_hostpoolreference.go
--   Tenant                        internal/controller: tenant_resources.go (Resources),
--                                 tenant_controller.go (Handlers)
--   ClusterOrder                  internal/controller: clusterorder_resources.go and
--                                 clusterorder_names.go (Resources), clusterorder_controller.go
--                                 (Observed for what is read off the cluster, Handlers)
--   HostPool                      internal/controller: hostpool_resources.go and hostpool_names.go
--                                 (Resources), hostpool_controller.go (Steps, Handlers)
--   Feedback                      internal/controller: computeinstance_feedback_controller.go
--                                 (ComputeInstances), feedback_controller.go (ClusterOrders),
--                                 hostpool_feedback_controller.go (HostPools)
--   Program                       cmd/main.go, internal/provisioning/factory.go and
--                                 internal/helpers/getenvwithdefault.go
--   Examples                      tests, and theorems applied to concrete inputs
-- The children of a part hold its proofs. Functions keep the source's names in snake case; a part
-- of a long function that is a definition of its own has a comment that says which part.
--
-- How state and errors are modelled. A handler takes a state to an outcome (a result, an error, or
-- a panic) and a state, so that what a handler changed before it failed is kept. For the
-- controller the state is the object, the state behind the provider, and the list of calls made.
-- Errors keep their type under wrapping, as errors.As sees it. Log calls and contexts are left out.
-- Times and durations are numbers, and a clock does not go backwards; a poll interval that is read
-- may be negative, and RequeueAfter, which is only tested for being positive, is 0 then.
--
-- The state of the other controllers is the object and the cluster's state, which each request to the
-- client may change and which is of a type that the model leaves open; where a webhook client is
-- used, its cache is a part of it.
--
-- What is a parameter. The answers of the cluster to the calls of one reconcile (Cluster), the
-- operations of Kubernetes' libraries on conditions and finalizers (Kube), net/http (Network and
-- Http), encoding/json, the texts of times and durations, and, for the instance's controller, the
-- provider; for each other controller its client (TenantApi, ClusterApi, HostPoolApi, FeedbackApi),
-- with the service's client and proto.Equal for feedback, and for the program its Environment.
--
-- Bounds. Every loop is a recursion on a list, and none needs fuel but the decimal digits of a
-- number n, which take n + 1 rounds at most, since each one divides by ten. The hash of the spec
-- is reduced modulo 2 ^ 64, a count of nodes that is reported is Go's int32 of it, and the counter
-- of the EDA job ids wraps at the largest int.
--
-- Not modelled: SetupWithManager and the watches that it wires, the flags, the gRPC connection and
-- the start of the manager in cmd/main.go, which are I/O and wiring, and generated code.
pub mod Prelude
pub mod Api
pub mod Strconv
pub mod Webhook
pub mod Aap
pub mod Provisioning
pub mod ComputeInstance
pub mod TenantNames
pub mod Examples
pub mod Controller
pub mod Tenant
pub mod ClusterOrder
pub mod HostPool
pub mod Feedback
pub mod Program
