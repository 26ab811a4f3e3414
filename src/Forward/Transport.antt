-- ===== src/Forward/Transport.antt =====
-- What a forwarded command meets: JSON, the bus and its answers, what is sent and printed, and `call` and
-- `not_dispatched` of src/daemon_forward/safety.rs.
use nm_daemon.Base.{
  ℕ, String, Bool, ◌&&◌, ◌||◌, Option, none, some, List, Result, ok, err, if◌then◌else◌, ◌==◌,
  nat_eq, string_eq, option_eq,
}

-- A `serde_json::Value`, by the JSON pointers that are read.
pub record Json (Value : Type 0) : Type 0 where
  pub parse : String → Option Value
  pub value_at : String → Value → Option Value
  pub text_at : String → Value → Option String
  pub number_at : String → Value → Option ℕ
  pub flag_at : String → Value → Option Bool

pub data ForwardOutcome : Type 0 where
  handled direct_connect not_forwardable unavailable : ForwardOutcome

-- An error of unknown outcome has the request's id where it is known.
pub data ForwardError : Type 0 where
  outcome_unknown : (request_id : Option String) → ForwardError
  reported other_error : ForwardError

-- What `call_method` returns: a message with its body, if that is a text, and its sender, the error that a
-- message brings, or a timeout or another failure.
pub data CallAnswer : Type 0 where
  replied : (body sender : Option String) → CallAnswer
  method_error : (name : String) (sender : Option String) → CallAnswer
  call_failed : CallAnswer

pub record Reply : Type 0 where
  pub body : String
  pub owner : Option String

-- A signal: its stream and its event, or `none` for another body.
abbrev pub Message : Type 0
Message = Option (String × String)

-- `receive` is the messages of the subscription, or `none` if there is none; `status` is the response of
-- the daemon with a name to a query for the status of a request.
pub record Bus : Type 0 where
  pub receive : Option (List Message)
  pub answer : CallAnswer
  pub status : (owner request_id : String) → Option String
  pub stdout : Bool

pub data Sent : Type 0 where
  command : (method : String) → Sent
  status_query : (owner request_id : String) → Sent

-- What a response is made of: a response of the daemon as it is, the result or the error of an event, or
-- the access points of a snapshot event.
pub data Printed (Value : Type 0) : Type 0 where
  response : Value → Printed Value
  result_of : Value → Printed Value
  error_of : Value → Printed Value
  access_points_of : Option Value → Printed Value

pub data Finish : Type 0 where
  finish_operation_result : Finish
  finish_scan : (quiet : Bool) → Finish

-- A method and a stream are the names that `as_str` gives them, which are different for different ones.
pub record Operation : Type 0 where
  pub method : String
  pub stream : String
  pub unavailable : ForwardOutcome
  pub finish : Finish

abbrev pub wifi_connect_target : String
wifi_connect_target = "wifi.connectTarget"

-- `not_dispatched`
unfoldable pub not_dispatched : String → Option String → Bool
not_dispatched name sender =
    sender == some "org.freedesktop.DBus"
    && (name == "org.freedesktop.DBus.Error.ServiceUnknown"
        || name == "org.freedesktop.DBus.Error.NameHasNoOwner")

-- `safety::call`
unfoldable pub call : CallAnswer → Result ForwardError (Option Reply)
call (replied none sender) = err (outcome_unknown none)
call (replied (some body) sender) = ok (some (record { body = body; owner = sender }))
call (method_error name sender) =
    if not_dispatched name sender then ok none else err (outcome_unknown none)
call call_failed = err (outcome_unknown none)
