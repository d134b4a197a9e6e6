-- ===== src/Discovery/Events.antt =====
-- events.go: the log records of a database. A consumer's error is logged and ignored.
use solarwinds_otel_collecto.Base.{◌||◌, List, [], ◌∷◌, String, if◌then◌else◌, ◌=s=◌, ◌++ₛ◌}
use solarwinds_otel_collecto.Connector.Pdata.{Pdata}

abbrev pub discovered_database_entity_type : String
discovered_database_entity_type = "DiscoveredDatabaseInstance"

abbrev pub discovered_relationship_type : String
discovered_relationship_type = "DiscoveredBy"

-- `databaseEvent`.
pub record DatabaseEvent : Type 0 where
  pub name : String
  pub address : String
  pub database_type : String
  pub namespace : String
  pub workload_kind : String
  pub workload_name : String

module _ (pd : Pdata) where
  abbrev pub put_text : String → String → pd.Map → pd.Map
  put_text k v m = pd.put_str m k v

  -- The IDs of the entity.
  abbrev pub database_keys : String → DatabaseEvent → pd.Map
  database_keys discovery_id ev = put_text "sw.discovery.id" discovery_id (
      put_text "sw.discovery.dbo.type" ev.database_type
        (put_text "sw.discovery.dbo.address" ev.address pd.new_map))

  -- The attributes of the record of `publishDatabaseEvent`.
  unfoldable pub database_attributes : String → String → DatabaseEvent → pd.Map
  database_attributes reporter discovery_id ev =
      pd.put_map
        (pd.put_map
          (put_text "otel.entity.type" discovered_database_entity_type
            (put_text "otel.entity.event.type" "entity_state" pd.new_map))
          "otel.entity.id" (database_keys discovery_id ev))
        "otel.entity.attributes"
        (put_text "sw.discovery.source" reporter
          (put_text "sw.discovery.dbo.name" ev.name pd.new_map))

  -- The attributes of the record of `publishRelationShip`.
  unfoldable pub relationship_attributes_of :
      (String → String) → String → String → DatabaseEvent → pd.Map
  relationship_attributes_of lower cluster_uid discovery_id ev =
      pd.put_map
        (put_text "otel.entity_relationship.destination_entity.type" discovered_database_entity_type
          (pd.put_map
            (put_text "otel.entity_relationship.source_entity.type"
              ("Kubernetes" ++ₛ ev.workload_kind)
              (put_text "otel.entity_relationship.type" discovered_relationship_type
                (put_text "otel.entity.event.type" "entity_relationship_state" pd.new_map)))
            "otel.entity_relationship.source_entity.id"
            (put_text "sw.k8s.cluster.uid" cluster_uid (
              put_text "k8s.namespace.name" ev.namespace (
                put_text ("k8s." ++ₛ lower ev.workload_kind ++ₛ ".name") ev.workload_name
                  pd.new_map)))))
        "otel.entity_relationship.destination_entity.id" (database_keys discovery_id ev)

  -- The attributes of the records that are sent, in order.
  unfoldable pub publish_database_event :
      (String → String) → String → String → String → DatabaseEvent → List pd.Map
  publish_database_event lower reporter cluster_uid discovery_id ev =
      database_attributes reporter discovery_id ev
      ∷ (if ev.workload_kind =s= "" || ev.workload_name =s= ""
          then []
          else relationship_attributes_of lower cluster_uid discovery_id ev ∷ [])
