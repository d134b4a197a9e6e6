-- ===== src/Lib.antt =====
-- Verification of the SolarWinds OpenTelemetry collector components.
--
-- The repository holds receivers, processors, an extension and a connector for the OpenTelemetry
-- collector. This library models their own logic; what comes from other packages is a parameter.
--
-- Connector: connector/solarwindsentityconnector, which turns metrics and log records into log
-- records about entities and their relationships.
--   * Connector/Config: config/models.go and config/schema.go (the models, `Validate`, `newEntities`);
--     Config/Expiration: config/expiration_policy.go; Config/Conditions: config/parsed_events.go and
--     `Schema.Unmarshal`.
--   * Connector/Attributes: internal/attributes.go (`IdentifyAttributes`), internal/attribute_helper.go
--     and the readers of internal/attribute_mapper.go. Connector/Mapper: the rest of that file.
--   * Connector/Events: internal/entity.go, internal/relationship.go, internal/event.go and
--     internal/constants.go. Connector/Keys: internal/key_builder.go.
--   * Connector/Detector: internal/event_detector.go.
--   * Connector/Storage: internal/storage/internal_storage.go. Connector/Manager:
--     internal/storage/storage_manager.go and internal/event_consumer.go; the select loop of
--     `receiveExpired` is the step relation `Run`.
--   * Connector/Handlers: connector.go (`Start`, `ConsumeMetrics`, `ConsumeLogs`, `handleEvent`), with
--     lemmas on its loops in Handlers/Loops, on the records of events in Handlers/Written and on the end
--     of a call in Handlers/Outcomes; Handlers/Delivery is about what a call delivers.
-- A call goes from Handlers through Attributes, Detector, Mapper and Keys to the events, which
-- Handlers writes as log records and hands to Manager and Storage. What Storage evicts, Manager
-- batches and sends as delete records.
--
-- WorkloadStatus: processor/swok8sworkloadstatusprocessor (processor.go, internal/cache.go and
-- internal/lookup.go), which adds the status of deployments, daemon sets and stateful sets to the
-- log records with their manifests. WorkloadStatus/Statuses has the statuses, and
-- WorkloadStatus/Ownership which pods they are computed from. The decoders of the manifests and the
-- index of client-go are parameters.
--
-- WorkloadType: processor/swok8sworkloadtypeprocessor, which writes the kind, the name and the
-- namespace of a workload to the attributes of metrics.
--   * WorkloadType and WorkloadType/Hostnames: internal/lookup.go; WorkloadType/Owners is about the
--     owners of pods and replica sets, WorkloadType/Hosts about host names.
--   * WorkloadType/Instrumentation: internal/otel_instrumentation_lookup.go, with
--     WorkloadType/Agreement about several pods. WorkloadType/Caches: internal/cache.go, with
--     WorkloadType/Transforms about what is stored.
--   * WorkloadType/Resources and WorkloadType/Mappings: config.go; WorkloadType/Passed and
--     WorkloadType/Validated are about the mappings that it accepts.
--   * WorkloadType/Startup and WorkloadType/Decoration: `Start` and `processMetrics` of processor.go;
--     WorkloadType/Safety and WorkloadType/Started lead from a valid configuration to what is looked
--     up, WorkloadType/Frame is about the attributes written.
-- The discovery client, the informers and their synchronisation are of client-go and are parameters,
-- as are the parsers of URLs and addresses (`Net`). The search for an owner runs on fuel, and its
-- result says if the fuel did not suffice; a look-up in an informer that is nil is an outcome too.
--
-- EntityRefs: processor/swootelentityrefprocessor (config.go and processor.go), which adds references
-- to entities to resources or removes them. EntityRefs/Checked is about the validation of its
-- configuration, EntityRefs/Inserted with EntityRefs/Present about resources. strings.ToLower on Unicode is a parameter.
--
-- K8sEvents: processor/k8seventgenerationprocessor, which adds log records about containers, images,
-- services and vulnerabilities to the log records with their manifests.
--   * K8sEvents/Manifests: internal/manifests, with K8sEvents/Containers about the containers of a pod
--     and K8sEvents/Addresses about the addresses of a service.
--   * K8sEvents/Constants: internal/constants. K8sEvents/Digests, K8sEvents/Reports and
--     K8sEvents/Vulnerabilities: vulnerability_log_constructor.go; K8sEvents/Records:
--     log_constructor.go. K8sEvents/Once is about its loops, K8sEvents/Ends and K8sEvents/Findings about
--     the relations that they report.
--   * K8sEvents/Pipeline: processor.go, with K8sEvents/Times about timestamps.
-- JSON decoding, the parser of image references, the validation of digests, upper and lower case,
-- floating point numbers, the semantic conventions and the clock are parameters.
--
-- Discovery: receiver/swok8sdiscovery, which finds databases among the pods and the services of a
-- cluster. Discovery/Rules: config.go; Discovery/Services: helpers.go, with Discovery/Matches about the
-- service of a pod; Discovery/Workloads: workload.go; Discovery/Images and Discovery/Domains: the files
-- discovery_images.go and discovery_domains.go; Discovery/Events: events.go; Discovery/Cycle:
-- `performDiscoveryCycle` of receiver.go, whose two halves run at the same time; Discovery/Identities and
-- Discovery/Once: that a workload is published once; Discovery/Ports: what a selector and a target mean. The API server, regular
-- expressions and the printing of addresses and ports are parameters.
--
-- Solarwinds: processor/solarwindsprocessor and pkg/attributesdecorator, which give every resource the
-- attributes of its host and those of the configuration. Solarwinds/HostAttributes: the file
-- internal/host_attributes_decorator.go; Solarwinds/Processor: processor.go and the configuration;
-- Solarwinds/Expected: the attributes that are to come out, one by one; Solarwinds/Writes and
-- Solarwinds/Decorated: that they do. The size of a marshalled signal, `strings.EqualFold`, the
-- container and what else is used of pcommon are parameters. Solarwinds/Extension: `start` with the file
-- extension_provider.go, where the look-up of the extension is a parameter, with Solarwinds/Started
-- about the resources that are decorated after the start.
--
-- Parameters: `Pdata` with `Laws` (pcommon.Map and pcommon.Value), `Marshal` (json.Marshal of the
-- IDs of an entity), `Cache` (ristretto), `Language` (an OTTL context with its parser and its
-- evaluation), time.ParseDuration, the floating point step of `int64(d.Seconds())`, the clock, and
-- the order in which Go walks a map. Connector/Samples has concrete instances of them.
--
-- Maps of Go are association lists, errors are values of the model's own types, and int64 is ℤ with
-- the wrap-around of 64 bits written out. Hashes are printed with fuel 16, which is the number of
-- hexadecimal digits of 64 bits. The fuel of the search for an owner is an argument; above the rank of
-- a workload in a chain of owners it is enough. Loops are recursive functions on their lists.
--
-- Left out: debug logs, the wiring of goroutines and channels around the modelled loops, factories
-- and generated metadata.
pub mod Base
pub mod Connector
pub mod WorkloadStatus
pub mod WorkloadType
pub mod EntityRefs
pub mod K8sEvents
pub mod Discovery
pub mod Solarwinds
