-- ===== src/Forward/Examples.antt =====
-- A forwarded connect at concrete values: undelivered, done, and cut off after its acknowledgement.
use nm_daemon.Base.{
  ◌≡◌, ◌⊎◌, refl, String, true, none, some, [], ◌∷◌, if◌then◌else◌, ◌==◌, string_eq, arith,
}
use nm_daemon.Base.Map.{Map, lookup}
use nm_daemon.Forward.Transport.{
  Json, Bus, method_error, replied, unavailable, direct_connect, handled, Operation,
  finish_operation_result, command, status_query, result_of,
}
use nm_daemon.Forward.{run_operation, dispatch_forward, operation}
use nm_daemon.Forward.Fallback.{Undelivered, fallback_is_safe}
use nm_daemon.Forward.Once.{SentOnce, sent_once}
use nm_daemon.Forward.Reports.{Succeeded}
use nm_daemon.Forward.Success.{Acknowledged, no_false_success}

abbrev Value : Type 0
Value = Map String String

abbrev acknowledgement : Value
acknowledgement = ("/protocol", "nm-api") ∷ ("/data/result/request_id", "r1") ∷ []

abbrev other_request : Value
other_request = ("/event", "succeeded") ∷ ("/request_id", "r0") ∷ []

abbrev success : Value
success = ("/event", "succeeded") ∷ ("/request_id", "r1") ∷ []

abbrev json : Json Value
json = record {
  parse = λ s.
      if s == "ack"
      then some acknowledgement
      else if s == "other"
      then some other_request
      else some success;
  value_at = λ p v. none;
  text_at = lookup;
  number_at = λ p v. some 1;
  flag_at = λ p v. some true;
}

abbrev connect : Operation
connect = record {
  method = "wifi.connectTarget";
  stream = "wifi.connect";
  unavailable = direct_connect;
  finish = finish_operation_result;
}

abbrev absent : Bus
absent = record {
  receive = some [];
  answer = method_error "org.freedesktop.DBus.Error.ServiceUnknown" (some "org.freedesktop.DBus");
  status = λ owner id. none;
  stdout = true;
}

abbrev present : Bus
present = record absent {
  receive = some (some ("wifi.connect", "other") ∷ some ("wifi.connect", "done") ∷ []);
  answer = replied (some "ack") (some ":1.4");
}

abbrev cut_off : Bus
cut_off = record present { receive = some (some ("wifi.connect", "other") ∷ none ∷ []) }

fallback_is_safe_example :
    (direct_connect ≡ connect.unavailable)
    × ((dispatch_forward Value json 1 absent (operation connect)).2 ≡ [])
    × (((dispatch_forward Value json 1 absent (operation connect)).1 ≡ [])
        ⊎ ((dispatch_forward Value json 1 absent (operation connect)).1
            ≡ command connect.method ∷ [])
          × Undelivered absent.answer)
unfolding run_operation nm_daemon.Forward.after_call nm_daemon.Forward.Transport.call
    nm_daemon.Forward.Transport.not_dispatched dispatch_forward
fallback_is_safe_example =
    fallback_is_safe Value json 1 absent (operation connect) direct_connect refl
      (λ e. absurd (ground arith))

sent_once_example :
    SentOnce Value json 1 cut_off connect.method
      (dispatch_forward Value json 1 cut_off (operation connect)).1
sent_once_example = sent_once Value json 1 cut_off (operation connect)

no_false_success_example :
    (id : String) × (e : Value) × ((run_operation Value json 1 present connect).2
      ≡ result_of e ∷ [])
    × Succeeded Value json 1 id e
    × Acknowledged Value json 1 present id
unfolding run_operation nm_daemon.Forward.after_call nm_daemon.Forward.Transport.call
    nm_daemon.Forward.acknowledged lookup nm_daemon.Forward.accepted nm_daemon.Forward.concluded
    nm_daemon.Forward.finish_events nm_daemon.Forward.correlated
    nm_daemon.Forward.finish_operation_event nm_daemon.Forward.print
no_false_success_example =
    no_false_success Value json 1 present connect refl (λ e. absurd (ground arith)) refl
