-- ===== src/Tests/Readings.antt =====
-- Concrete runs of the theorems on pages and cursors (src/api/read.rs).
use palla_sync.Routing.Endpoint.{Route}
use palla_sync.Routing.Dispatch.{Handlers, dispatch}
use palla_sync.Routing.Reading.{AreReading, IsRead}
use palla_sync.Routing.Reading.Routes.{dispatch-IsRead}
use palla_sync.Mutation.{reply}
use palla_sync.Db.Action.{pure}
use palla_sync.Store.Quota.{quota, used, sum_rows}
use palla_sync.Prelude.{
  refl, String, Table, ℕ, Bool, ◌∷◌, ◌≡◌, some, Option, false, [], none, true, if◌then◌else◌,
  length, ◌+◌, ◌==◌, arith, nat_eq, text_eq, find_row,
}
use palla_sync.Read.{Query, query, Page}
use palla_sync.Read.Cursors.{cursor, page_limit, page, is_token, insert_cursor, cursor_row}
use palla_sync.Read.Pages.{IsPage, scan-IsPage_whole}
use palla_sync.Json.{Value, object, str, num, null, s, n}
use palla_sync.Db.{World, Chain}
use palla_sync.Crypto.Primitives.{External}
use palla_sync.Crypto.{decode}
use palla_sync.Tests.{relay, sample, chain, world, zeros, RelayConfig}
use palla_sync.Error.{ok}
use palla_sync.Read.Log.{includes, records_get, scan}
use palla_sync.Read.Resume.{page-cursor}
use palla_sync.Config.{RelayConfig}
use palla_sync.Auth.{Auth}

-- Identifiers that parse, and an encoding that is read back.
abbrev drawing : External
drawing = record sample {
  parse_uuid = λ t. some (record { version = 4; is_rfc4122 = true; bytes = 0 ∷ []; display = t });
  encode = λ b. if length b == 2 then "token" else sample.encode b;
  decode_base64 = λ t. if t == "token" then some (zeros 2) else sample.decode_base64 t;
}

abbrev entry : String → Value
entry kind = object (("kind", str kind) ∷ ("object", object (("epoch", num 0) ∷ [])) ∷ [])

abbrev rows : Table ℕ (Option Value)
rows =
    (3, some (entry "envelope"))
    ∷ (4, some (entry "record"))
    ∷ (5, some (entry "admin"))
    ∷ (6, some (entry "record"))
    ∷ []

abbrev wanted : Value → Bool
wanted = includes records_get none none

abbrev secret : Value → Bool
secret v = false

scanned : scan ⦃x = sample⦄ chain wanted secret 1 0 0 2 rows ≡ ok (entry "record" ∷ [], 5)
unfolding scan includes s object n
scanned = refl

scan-IsPage_whole_example : IsPage ⦃x = sample⦄ wanted secret 1 0 0 2 rows (entry "record" ∷ []) 5
scan-IsPage_whole_example =
    scan-IsPage_whole ⦃x = sample⦄ chain wanted secret 1 2 rows (entry "record" ∷ []) 5 scanned

abbrev first : Page
first = record {
  cut = chain;
  position = 5;
  key = "";
  limit = 1;
  resource = "log";
  filters = object [];
  expires = 2000;
  extra = null;
}

-- The relay with a limit of pages.
abbrev paging : RelayConfig
paging = record relay { privacy = object (("limits", object (("page_limit", num 1000) ∷ [])) ∷ []) }

abbrev kept : World
kept = (cursor ⦃x = drawing⦄ paging first world).1

stored : cursor ⦃x = drawing⦄ paging first world ≡ (ok "token", kept)
unfolding cursor insert_cursor find_row quota used sum_rows cursor_row n
stored = refl

abbrev continuing : Query
continuing = ("cursor", "token") ∷ ("limit", "2") ∷ []

two_more : page_limit ⦃x = drawing⦄ paging continuing ≡ ok 2
unfolding page_limit n object
two_more = refl

no_after : query continuing "after_seq" ≡ none
unfolding query
no_after = refl

with_cursor : query continuing "cursor" ≡ some "token"
unfolding query
with_cursor = refl

is_a_token : is_token ⦃x = drawing⦄ "token" ≡ true
unfolding decode
is_a_token = refl

page-cursor_example :
    page ⦃x = drawing⦄ chain paging "log" continuing (object []) null kept
    ≡ (ok (record first { limit = 2 }), record kept { reads = kept.reads + 1 })
unfolding cursor insert_cursor find_row quota used sum_rows cursor_row n
page-cursor_example =
    page-cursor ⦃x = drawing⦄ chain paging first continuing null 2 "token" world kept kept stored
      refl is_a_token with_cursor no_after two_more refl refl refl refl (omega arith)

-- Listings that answer nothing.
abbrev nothing : Handlers
nothing = record {
  objects = λ c auth route param q. pure null;
  requests = λ c auth q. pure null;
  export_chain = λ c auth q. pure null;
  reseed_chain = λ c auth v. pure (reply 200 null c);
}

nothing-AreReading : AreReading world.db nothing
nothing-AreReading = record {
  objects = λ c auth route param q. record { at = λ w h. h };
  requests = λ c auth q. record { at = λ w h. h };
  export_chain = λ c auth q. record { at = λ w h. h };
}

-- A chain whose log goes on behind the page.
abbrev longer : Chain
longer = record chain { head_seq = 1 }

abbrev admin : Auth
admin = record { token = null; device_id = none }

abbrev read : World
read = (dispatch ⦃x = drawing⦄ nothing longer paging admin "" [] null null Route.log world).1

dispatch-IsRead_example : IsRead world.db read.db
dispatch-IsRead_example =
    dispatch-IsRead ⦃x = drawing⦄ nothing longer paging admin "" [] null null Route.log world
      nothing-AreReading refl
