-- ===== src/Tests/Resolutions.antt =====
-- Tests of the resolution of customers.
use messgr.Base.{refl, false, none, [], ◌∷◌}
use messgr.Store.Tables.{empty_db, Db}
use messgr.Store.Steps.{Ends}
use messgr.Ingest.Request.{external}
use messgr.Customers.Resolve.{Destination, resolve}
use messgr.Customers.Safe.{Safe}
use messgr.Customers.Holding.{Held}
use messgr.Customers.Resolution.{resolve-Safe}
use messgr.Tests.Samples.{keystore, world_with}

abbrev pub phone : Destination
phone = record {
  kind = "msisdn";
  value_hmac = 1 ∷ [];
  destination = 2 ∷ [];
  locale = "en";
  timezone = "UTC";
}

abbrev pub known_db : Db
known_db = record empty_db {
  customers =
      record {
        id = 20;
        locale = "de";
        timezone = "UTC";
        provisional = false;
        source_system = none;
        source_updated_at = none;
        created_at = 1;
      }
      ∷ [];
  external_ids = record { customer_id = 20; system = "crm"; external_id = "x" } ∷ [];
}

resolve-Safe_example :
    Ends (Safe (Held phone)) (resolve keystore phone (external "crm" "x")) (world_with known_db)
resolve-Safe_example =
    resolve-Safe keystore phone (external "crm" "x") (world_with known_db) (refl, tt)
