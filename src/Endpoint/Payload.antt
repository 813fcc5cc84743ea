-- ===== src/Endpoint/Payload.antt =====
-- internal/server/primary_endpoint.go: `makePrimaryConnectionPayload`, what the page and the API
-- show of the primary endpoint. The URL of the DSN is kept as the parts that `net/url` is given.
use neon_selfhost.Prelude.{Text, codes, Bool, Option, none, some, ◌&&◌, if◌then◌else◌}
use neon_selfhost.Prelude.Trim.{trim_space}
use neon_selfhost.Prelude.Case.{equal_fold}
use neon_selfhost.Endpoint.Manager.{ConnectionInfo, EndpointState}

pub data PayloadStatus : Type 0 where
  stopped starting unhealthy running : PayloadStatus

pub record Payload : Type 0 where
  pub status : PayloadStatus
  pub ready : Bool
  pub runtime_state : Text
  pub runtime_message : Text
  pub branch : Text
  pub conn : ConnectionInfo
  pub tenant_id : Text
  pub timeline_id : Text
  pub dsn : Option ConnectionInfo

abbrev pub payload_status : EndpointState → PayloadStatus
payload_status s =
    if s.status.running
    then (if s.status.ready
        then PayloadStatus.running
        else if equal_fold (trim_space s.status.state) (codes "unhealthy")
        then PayloadStatus.unhealthy
        else PayloadStatus.starting)
    else PayloadStatus.stopped

unfoldable pub make_primary_connection_payload : EndpointState → Payload
make_primary_connection_payload s = record {
  status = payload_status s;
  ready = s.status.running && s.status.ready;
  runtime_state = s.status.state;
  runtime_message = s.status.message;
  branch = s.branch;
  conn = s.conn;
  tenant_id = s.tenant_id;
  timeline_id = s.timeline_id;
  dsn = if s.status.running && s.status.ready then some s.conn else none;
}
