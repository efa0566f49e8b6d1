-- ===== src/Lib.antt =====
-- The Talos control plane provider for Cluster API: the decisions of its controller.
--
-- The controller keeps the machines of a control plane, and with them the members of an etcd cluster.
-- A reconcile first services the pre-terminate hooks of machines that are being deleted, bootstraps
-- the first machine, checks etcd, and then remediates an unhealthy machine or scales. All of these
-- change etcd's membership one member at a time and must not cost it its quorum; the files model
-- the handlers and what they check.
--
-- Base: Boolean tests, lists, comparisons with a stable sort, texts, errors, Go maps, and Int with
--   signed numbers and the int32 sum of upgradeControlPlane (controllers/upgrade.go).
-- Objects: the API objects (api/v1beta1/taloscontrolplane_types.go and Cluster API's Machine and
--   Cluster), with the fields that the modelled code reads.
-- Talos: what the Talos API of one machine answers about etcd (controllers/etcdclient.go).
-- Etcd (controllers/etcd.go): Names has nodeNamesForMachine and identifyEtcdMember; Membership has
--   newEtcdMembership, verify and compareEtcdMembers; Health has etcdHealth, etcdServiceError and
--   probeEtcd; Check has etcdHealthcheck; Audit has auditEtcd.
-- Quorum (controllers/remediation.go): recordedEtcdFrom, canSafelyRemoveEtcdMember and
--   canSafelyAddEtcdMemberTo.
-- Remediation (controllers/remediation.go): Limits has checkRemediationRetryLimits; Progress has
--   reconcileRemediationInProgress; Target has machineToBeRemediated; Api has what the API server
--   answers; Cleanup has cleanupOwnerRemediated; Checks has what reconcileUnhealthyMachines checks,
--   remediationBeforeInitialization included; Unhealthy has reconcileUnhealthyMachines and
--   reconcileRemediationAndMachines.
-- PreTerminate (controllers/preterminate.go): Hook has the annotations and the patches; Membership
--   has reconcilePreTerminateHookForMachine; Service has reconcileMachinePreTerminateHooks.
-- Bootstrap (controllers/bootstrap.go): reconcileBootstrap.
-- Preflight (controllers/health.go, controllers/preflight.go): Nodes has nodesHealthcheck; Checks has
--   preflightChecks, preflightChecksForScaleUp and preflightChecksWhileRemediating.
-- Scale (controllers/scale.go, controllers/controlplane.go): selectMachineForScaleDown; Down has
--   scaleDownControlPlane, and ensureNodesBooted of controllers/health.go; Up has
--   scaleUpControlPlane, and upgradeControlPlane of controllers/upgrade.go.
-- Rollout (controllers/controlplane.go): ControlPlane, the machines that need a rollout, the UpToDate
--   conditions, and NextFailureDomainForScaleUp; Equality has reflect.DeepEqual of configurations.
-- Boot (controllers/taloscontrolplane_controller.go): bootControlPlane and generateTalosConfig, and
--   initializeControlPlane of controllers/bootstrap.go; Labels has the labels of a machine.
-- InPlace (controllers/inplace.go): reconcileInPlaceUpdates; Patch has canUpdateMachine; Trigger has
--   triggerInPlaceUpdate of controllers/inplace_trigger.go.
-- Machines (controllers/taloscontrolplane_controller.go): reconcileMachines, which composes the
--   bootstrap, the updates in place, the rollout and the scaling; Template has
--   reconcileMachineTemplateState; Step has reconcileRemediationAndMachines with the steps that it
--   calls.
-- Controller (controllers/taloscontrolplane_controller.go): Delete has the finalizers and
--   reconcileDelete; Status has updateStatus, and reconcileRemediationStatus of
--   controllers/remediation.go.
-- Webhook (api/v1beta1/taloscontrolplane_webhook.go): the defaults and the validation; Naming has the
--   machine names of api/v1beta1/machine_naming.go.
-- Hooks (internal/hooks/tracking.go, isUpdatingInPlace of controllers/inplace.go).
-- Samples has the machines and answers that the Tests modules run on, and Worlds those of the
--   scaling, the rollout and the updates.
--
-- A handler is a function of the objects and of what it meets outside: the API server's and the Talos
-- API's answers are arguments (Env, Api, Nodes, Dial, World, Client, Extensions), and so are Cluster API's predicates (Library)
-- and the clock. An answer is a function of the machine that is asked, so a call that is repeated
-- within a handler answers the same. What a handler does is a list of effects, in order, beside the
-- objects as it leaves them. Logging, contexts and timeouts are left out; a call that times out is
-- one that answers with an error.
--
-- Numbers and texts: times are nanoseconds since an epoch, and an annotation keeps whole seconds of
-- them. Counts are natural numbers. The replicas and maxSurge are signed, since neither is validated;
-- their sum wraps around as an int32 does, and is compared with the number of machines as an int32
-- (Base/Int.antt, which relates it to the sum of the integers where that does not overflow). The
-- other int32 fields of the specification have a minimum of 0 in the API and are natural numbers.
-- Subtractions that stop at 0 are said to be exact where they stand.
-- An annotation's value is what the code can read from it: remediation data, a time, or a text.
-- Messages are formats with what they quote. Host names are compared after ASCII lower-casing.
-- maxSurge is an integer, what IntValue reads from the field; the call of IntValue on a missing one
-- panics, which is an error here. A label value's hash is 32 bits wide, with the wrap-around written
-- out. Loops are structural recursion over the lists that they visit. The hexadecimal digits of a
-- hash are computed on fuel 8, which is enough for 32 bits.
--
-- Not modelled: Reconcile and reconcile themselves (the order of the phases and the aggregation of
-- their results), kubeconfig and client construction (taloscontrolplane_controller.go, configs.go),
-- the conversion between API versions, the webhook of the templates, owner references, and what is I/O
-- or generated: main.go, internal/runtimeclient, internal/ssa, internal/integration and the deep
-- copies. Test substitutes of the reconciler (bootstrapper, etcdDataChecker, etcdDialer) are left
-- out.
pub mod Base
pub mod Objects
pub mod Etcd
pub mod Bootstrap
pub mod Preflight
pub mod Quorum
pub mod Remediation
pub mod Hooks
pub mod Talos
pub mod PreTerminate
pub mod Scale
pub mod Rollout
pub mod Boot
pub mod InPlace
pub mod Machines
pub mod Webhook
pub mod Controller
pub mod Samples
