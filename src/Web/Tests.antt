-- ===== src/Web/Tests.antt =====
-- cmd/web/main.go: runs at concrete inputs, and the theorems at such inputs.
use uptime_monitor.Prelude.{
  pos, ◌+ℤ◌, ◌*◌, ltb_ℤ, true, none, some, [], ◌∷◌, same_text, lookup, string_eq, if◌then◌else◌,
  ◌≡◌, refl, arith,
}
use uptime_monitor.Store.{calm, answered, unanswered}
use uptime_monitor.Store.Monitors.{find_monitor, is_owner, is_muted}
use uptime_monitor.Store.Tests.{row_of, two_sites}
use uptime_monitor.Auth.{World, Request, redirect, plain, value_of}
use uptime_monitor.Web.{Forms, normalize_url, atoi_or, mute, delete, routes}
use uptime_monitor.Web.Ownership.{others_of, AreMonitors, routes-Spares}
use uptime_monitor.Web.Muting.{mute-is_muted}

abbrev forms : Forms
forms = record {
  atoi = λ s.
      if same_text s "1" then some (pos 1) else if same_text s "48" then some (pos 48) else none;
  trim = λ s. s;
  fields = λ s. s ∷ [];
}

abbrev world : World
world = record { now = pos 1000; token = "t"; salt = 7 }

abbrev form : Request
form = record {
  method = "POST";
  path = "/monitors/mute";
  cookie = some "a";
  form = ("id", "1") ∷ ("hours", "48") ∷ [];
  query = [];
  tls = true;
  forwarded_proto = "";
  host = "status.example.com";
}

adds_scheme : normalize_url "example.com" ≡ "https://example.com"
unfolding normalize_url
adds_scheme = refl

keeps_scheme : normalize_url "http://example.com" ≡ "http://example.com"
unfolding normalize_url
keeps_scheme = refl

hours_of_form : atoi_or forms (value_of "hours" form.form) (pos 2) ≡ pos 48
unfolding atoi_or
hours_of_form = refl

first_is_found : find_monitor (pos 1) two_sites.monitors ≡ some (row_of (pos 1) (some (pos 5)))
unfolding find_monitor
first_is_found = refl

mute-is_muted_example :
    ((mute forms (some (pos 5)) world form (calm two_sites)).1 ≡ plain (redirect "/"))
    × ((is_muted (pos 1) (pos 2000) (mute forms (some (pos 5)) world form (calm two_sites)).0).1
        ≡ some (ltb_ℤ (pos 2000) (world.now +ℤ pos (3600000000000 * 48))))
unfolding is_owner
mute-is_muted_example =
    mute-is_muted forms (pos 5) (pos 1) world form two_sites (row_of (pos 1) (some (pos 5))) 48
      (pos 2000) refl hours_of_form (omega arith) first_is_found refl

two_sites-AreMonitors : AreMonitors two_sites.monitors
unfolding AreMonitors find_monitor
two_sites-AreMonitors = (refl, (refl, tt))

delete_is_routed : lookup "POST /monitors/delete" (routes forms) ≡ some (delete forms)
unfolding routes
delete_is_routed = refl

routes-Spares_example :
    others_of
      (pos 6)
      (delete forms
        (some (pos 6))
        world
        form
        (record { db = two_sites; io = answered ∷ unanswered ∷ [] })).0.db.monitors
    ≡ others_of (pos 6) two_sites.monitors
routes-Spares_example =
    routes-Spares forms "POST /monitors/delete" (delete forms) (pos 6) world form
      (record { db = two_sites; io = answered ∷ unanswered ∷ [] }) delete_is_routed
      two_sites-AreMonitors
