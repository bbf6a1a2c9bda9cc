-- ===== src/Alert/Text.antt =====
-- internal/alert/alert.go: the texts of an alert. Package time is a parameter: the whole seconds,
-- minutes and hours of a Duration, and the format of a Time.
mod Tests
use uptime_monitor.Prelude.{
  ℤ, pos, eq_ℤ, ltb_ℤ, Bool, true, false, Option, none, some, List, [], ◌∷◌, ◌++◌, String, ◌<+>◌,
  itoa, is_blank, if◌then◌else◌,
}
use uptime_monitor.Time.{Time, Duration, zero_time}
use uptime_monitor.Alert.{Kind, down, recovered, cert_expiring, slow, Event}

pub record Times : Type 0 where
  pub seconds : Duration → ℤ
  pub minutes : Duration → ℤ
  pub hours : Duration → ℤ
  pub minutes_of_hour : Duration → ℤ  -- the remainder of the minutes by 60
  pub format : Time → String

-- `dash`.
unfoldable pub dash : String → String
dash s = if is_blank s then "" else " - " <+> s

-- `when`.
unfoldable pub when : Times → Time → String
when x t = if eq_ℤ t zero_time then "just now" else x.format t

-- `plural`.
unfoldable pub plural : ℤ → String → String
plural n unit = if eq_ℤ n (pos 1) then "1 " <+> unit else itoa n <+> " " <+> unit <+> "s"

-- `humanizeDuration`.
unfoldable pub humanize : Times → Duration → String
unfolding plural
humanize x d =
    if ltb_ℤ d (pos 60000000000)
    then plural (if ltb_ℤ (x.seconds d) (pos 1) then pos 1 else x.seconds d) "second"
    else if ltb_ℤ d (pos 3600000000000)
    then plural (x.minutes d) "minute"
    else if eq_ℤ (x.minutes_of_hour d) (pos 0)
    then plural (x.hours d) "hour"
    else plural (x.hours d) "hour" <+> " " <+> plural (x.minutes_of_hour d) "minute"

-- A text about the length of an outage, where it is known.
if_known : Times → Event → String → String
unfolding humanize
if_known x e text = if ltb_ℤ (pos 0) e.duration then text <+> humanize x e.duration else ""

subject_of : Times → Event → Kind → String
unfolding dash if_known
subject_of x e down = "[DOWN] " <+> e.monitor <+> dash e.cause
subject_of x e recovered = "[RESOLVED] " <+> e.monitor <+> " is back up" <+> if_known x e " after "
subject_of x e cert_expiring = "[SSL] " <+> e.monitor <+> dash e.cause
subject_of x e slow = "[SLOW] " <+> e.monitor <+> dash e.cause

-- `Subject`.
unfoldable pub subject : Times → Event → String
unfolding subject_of
subject x e = subject_of x e e.kind

headline_of : Times → Event → Kind → String
unfolding if_known
headline_of x e down = e.monitor <+> " is down"
headline_of x e recovered = e.monitor <+> " is back up" <+> if_known x e " — down for "
headline_of x e cert_expiring = e.monitor <+> ": SSL certificate expiring"
headline_of x e slow = e.monitor <+> " is responding slowly"

-- `headline`.
unfoldable pub headline : Times → Event → String
unfolding headline_of
headline x e = headline_of x e e.kind

-- A row, where its fact is there.
row_if : Bool → String → String → List (String × String)
row_if true label value = (label, value) ∷ []
row_if false label value = []

-- A row with a text, where that is not blank.
row_with : String → String → String → List (String × String)
row_with label prefix s = if is_blank s then [] else (label, prefix <+> s) ∷ []

rows_of : Times → Event → Kind → List (String × String)
unfolding row_if row_with when humanize
rows_of x e down =
    ("Status", "DOWN")
    ∷ ("Detected", when x e.at)
    ∷ (row_with "Reason" "" e.cause
        ++ (if is_blank e.region
            then []
            else ("Confirmed by", "multiple regions (incl. " <+> e.region <+> ")") ∷ []))
rows_of x e recovered =
    ("Status", "Back up")
    ∷ ("Recovered", when x e.at)
    ∷ (row_if (ltb_ℤ (pos 0) e.duration) "Downtime" (humanize x e.duration)
        ++ row_with "Confirmed by" "region " e.region)
rows_of x e cert_expiring =
    ("Alert", "SSL certificate expiring")
    ∷ (row_with "Detail" "" e.cause ++ ("Noticed", when x e.at) ∷ [])
rows_of x e slow =
    ("Alert", "Slow responses") ∷ (row_with "Detail" "" e.cause ++ ("Noticed", when x e.at) ∷ [])

-- `rows`.
unfoldable pub rows : Times → Event → List (String × String)
unfolding rows_of
rows x e = ("Monitor", e.monitor) ∷ (row_with "URL" "" e.url ++ rows_of x e e.kind)

-- `accent`.
unfoldable pub accent : Kind → String
accent recovered = "#17915a"
accent down = "#d63b3b"
accent cert_expiring = "#b26a00"
accent slow = "#b26a00"

message_of : Event → Kind → String
message_of e down =
    "🔴 DOWN — " <+> e.monitor <+> " (agreed by regions incl. " <+> e.region <+> "): " <+> e.cause
message_of e cert_expiring = "⚠\u{fe0f} SSL CERT EXPIRING — " <+> e.monitor <+> ": " <+> e.cause
message_of e slow = "🐢 SLOW — " <+> e.monitor <+> ": " <+> e.cause
message_of e recovered = "🟢 RECOVERED — " <+> e.monitor <+> " (region " <+> e.region <+> ")"

-- `Message`.
unfoldable pub message : Event → String
unfolding message_of
message e = message_of e e.kind

join_addresses : List String → String
join_addresses [] = ""
join_addresses (a ∷ []) = a
join_addresses (a ∷ b ∷ rest) = a <+> ", " <+> join_addresses (b ∷ rest)

-- `buildMessage`.
unfoldable pub build_message : String → List String → String → String → String
unfolding join_addresses
build_message from to subject body =
    "From: "
    <+> from
    <+> "\r\nTo: "
    <+> join_addresses to
    <+> "\r\nSubject: "
    <+> subject
    <+> "\r\nContent-Type: text/plain; charset=utf-8\r\n\r\n"
    <+> body
    <+> "\r\n"
