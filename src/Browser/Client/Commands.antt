-- ===== src/Browser/Client/Commands.antt =====
-- What the commands of the browser's WormDB make of a response, and the frames that they send,
-- apps/browser/src/client.ts.
use wormdb.Base.{◌++◌, none, some, Result, JsString, err, ok, Option, plain_error}
use wormdb.Browser.{BrowserResponse, value_reply, error_reply, event_reply, null_reply, ok_reply}
use wormdb.Text.{codes}

-- `resp.type`
pub type_name : BrowserResponse → JsString
type_name ok_reply = codes "ok"
type_name null_reply = codes "null"
type_name (error_reply m) = codes "error"
type_name (value_reply v) = codes "value"
type_name (event_reply c m) = codes "event"

unfoldable pub unexpected {ℓ} : {A : Type ℓ} → BrowserResponse → Result A
unexpected r = err (plain_error (codes "unexpected response: " ++ type_name r))

-- `get`: none stands for null.
pub get_answer : BrowserResponse → Result (Option JsString)
unfolding unexpected
get_answer (value_reply v) = ok (some v)
get_answer null_reply = ok none
get_answer (error_reply m) = err (plain_error m)
get_answer r = unexpected r

-- `set` and `del`.
pub done_answer : BrowserResponse → Result (Unit {0})
unfolding unexpected
done_answer ok_reply = ok tt
done_answer (error_reply m) = err (plain_error m)
done_answer r = unexpected r

pub status_answer : BrowserResponse → Result JsString
unfolding unexpected
status_answer (value_reply v) = ok v
status_answer (error_reply m) = err (plain_error m)
status_answer r = unexpected r

-- `publish`, `subscribe` and `unsubscribe` take any response but an error.
pub lenient_answer : BrowserResponse → Result (Unit {0})
lenient_answer (error_reply m) = err (plain_error m)
lenient_answer r = ok tt

pub auth_answer : BrowserResponse → Result (Unit {0})
auth_answer ok_reply = ok tt
auth_answer (error_reply m) = err (plain_error (codes "auth failed: " ++ m))
auth_answer r = err (plain_error (codes "unexpected auth response: " ++ type_name r))
