-- ===== src/Web.antt =====
-- cmd/web/main.go: the forms of the status page, behind the gate of the accounts. The texts of errors
-- are left out.
mod Ownership
mod Muting
mod Tests
use uptime_monitor.Prelude.{
  ℕ, ℤ, pos, ◌+ℤ◌, ltb_ℤ, to_int64, scale, Bool, true, false, not, ◌&&◌, ◌||◌, Option, none, some,
  List, [], ◌∷◌, String, ◌<+>◌, is_blank, same_text, starts_with, lookup, string_eq, if◌then◌else◌,
}
use uptime_monitor.Time.{Time, Duration}
use uptime_monitor.Message.{StoreMonitor}
use uptime_monitor.Store.{Store}
use uptime_monitor.Store.Monitors.{
  create_monitor, set_muted, delete_monitor, Answer, done, not_yours, failed,
}
use uptime_monitor.Auth.{
  World, Request, Reply, Handler, Body, redirect, server_error, bad_request, plain, value_of,
  user_id, gate,
}

-- Of packages strconv and strings: `Atoi` and `ParseInt` of a decimal int64, none is an error;
-- `TrimSpace`; and `FieldsFunc` at commas, spaces and newlines.
pub record Forms : Type 0 where
  pub atoi : String → Option ℤ
  pub trim : String → String
  pub fields : String → List String

-- `normalizeURL`.
unfoldable pub normalize_url : String → String
normalize_url u =
    if is_blank u
    then ""
    else if not (starts_with u "http://") && not (starts_with u "https://")
    then "https://" <+> u
    else u

abbrev pub natural_or : Option ℤ → ℤ → ℤ
natural_or none dflt = dflt
natural_or (some v) dflt = if ltb_ℤ v (pos 0) then dflt else v

-- `atoiOr`.
unfoldable pub atoi_or : Forms → String → ℤ → ℤ
atoi_or f s dflt = natural_or (f.atoi (f.trim s)) dflt

keep_texts : Forms → List String → List String
keep_texts f [] = []
keep_texts f (p ∷ ps) =
    let rest = keep_texts f ps in let t = f.trim p in if is_blank t then rest else t ∷ rest

-- `splitEmails`.
unfoldable pub split_emails : Forms → String → List String
unfolding keep_texts
split_emails f s = keep_texts f (f.fields s)

abbrev positive_or : Option ℤ → ℤ → ℤ
positive_or none dflt = dflt
positive_or (some v) dflt = if ltb_ℤ (pos 0) v then v else dflt

-- The monitor of the form, behind its URL.
unfoldable pub form_monitor : Forms → String → Request → StoreMonitor
unfolding split_emails atoi_or
form_monitor f url r =
    let name = f.trim (value_of "name" r.form) in
    record {
      id = pos 0;
      name = if is_blank name then url else name;
      url = url;
      method = "GET";
      interval_seconds = positive_or (f.atoi (value_of "interval_seconds" r.form)) (pos 30);
      timeout_ms = pos 5000;
      expected_status = pos 200;
      enabled = true;
      notify_emails = split_emails f (value_of "email" r.form);
      expected_keyword = f.trim (value_of "keyword" r.form);
      slow_threshold_ms = atoi_or f (value_of "slow_ms" r.form) (pos 0);
    }

abbrev pub created_reply : Option ℤ → Reply
created_reply none = plain server_error
created_reply (some id) = plain (redirect "/")

-- POST /monitors.
unfoldable pub add_monitor : Forms → Option ℤ → Handler
unfolding normalize_url form_monitor create_monitor
add_monitor f user w r s =
    let url = normalize_url (f.trim (value_of "url" r.form)) in
    let (s', id) = create_monitor (form_monitor f url r) (user_id user) s in
    if is_blank url then (s, plain (redirect "/")) else (s', created_reply id)

abbrev pub answer_reply : Answer → Reply
answer_reply done = plain (redirect "/")
answer_reply not_yours = plain server_error
answer_reply failed = plain server_error

-- `time.Duration(hours) * time.Hour`.
unfoldable pub of_hours : ℤ → Duration
of_hours h = to_int64 (scale 3600000000000 h)

-- The three forms behind the id of their monitor.
unfoldable pub mute_until : Option ℤ → Option Time → Option ℤ → Store → Store × Reply
unfolding set_muted
mute_until user until none s = (s, plain bad_request)
mute_until user until (some id) s =
    let (s', a) = set_muted id (user_id user) until s in (s', answer_reply a)

unfoldable pub delete_by : Option ℤ → Option ℤ → Store → Store × Reply
unfolding delete_monitor
delete_by user none s = (s, plain bad_request)
delete_by user (some id) s =
    let (s', a) = delete_monitor id (user_id user) s in (s', answer_reply a)

-- POST /monitors/mute.
unfoldable pub mute : Forms → Option ℤ → Handler
unfolding mute_until atoi_or of_hours
mute f user w r s =
    let until = w.now +ℤ of_hours (atoi_or f (value_of "hours" r.form) (pos 2)) in
    mute_until user (some until) (f.atoi (value_of "id" r.form)) s

-- POST /monitors/unmute.
unfoldable pub unmute : Forms → Option ℤ → Handler
unfolding mute_until
unmute f user w r s = mute_until user none (f.atoi (value_of "id" r.form)) s

-- POST /monitors/delete.
unfoldable pub delete : Forms → Option ℤ → Handler
unfolding delete_by
delete f user w r s = delete_by user (f.atoi (value_of "id" r.form)) s

unfoldable pub routes : Forms → List (String × (Option ℤ → Handler))
unfolding add_monitor mute unmute delete
routes f =
    ("POST /monitors", add_monitor f)
    ∷ ("POST /monitors/mute", mute f)
    ∷ ("POST /monitors/unmute", unmute f)
    ∷ ("POST /monitors/delete", delete f)
    ∷ []
