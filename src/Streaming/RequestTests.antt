-- ===== src/Streaming/RequestTests.antt =====
-- A request for a track that only the anonymous client has, a storage that fails three times, and the
-- choice of a stream.
use sc_desktop_beautiful.Prelude.{[], if◌then◌else◌, false, none, refl, some, true, ◌∷◌, ◌≡◌}
use sc_desktop_beautiful.Prelude.Text.{codes, contains, starts_with, text_eq}
use sc_desktop_beautiful.Streaming.Breaker.{Breaker, Storage, StorageClient}
use sc_desktop_beautiful.Streaming.Handler.{
  Clients, Header, Lookup, Pg, SessionInfo, Site, StreamQuery, World, anon, found, nothing, oauth,
  value,
}
use sc_desktop_beautiful.Streaming.Oauth.{
  Download, Requests, ScStreams, answered, by_sessions, by_tokens, candidates,
  fetch_streams_direct_once, get_streams, no_answer, offered, try_format, try_formats,
  try_oauth_stream,
}
use sc_desktop_beautiful.Streaming.Restricted.{
  Transcoding, find, is_encrypted, is_text, is_wanted, or_else, pick_encrypted,
}
use sc_desktop_beautiful.Streaming.Restricted.Picked.{Picks, pick_encrypted-Picks}

abbrev closed : Breaker
closed = record { consecutive_unavailable = 0; unavailable_until = 0 }

-- The third failure comes at 7.
abbrev left_alone : Breaker
left_alone = record { consecutive_unavailable = 3; unavailable_until = 60007 }

abbrev client : StorageClient
client = record { base_url = codes "b"; public_url = codes "p"; auth_token = codes "k" }

abbrev full : Storage
full = record { breaker = left_alone; heads = []; writes = []; uploads = [] }

abbrev site : Site
site = record { client = client; now = 100; track_urn = codes "soundcloud:tracks:1" }

abbrev clients : Clients
clients = record {
  oauth = λ access hq_only. none;
  anon = found (codes "bytes", codes "audio/mpeg");
  anon_restricted = λ hq. nothing;
  cookies = none;
  cookies_restricted = λ hq. nothing;
  process_stream = none;
}

abbrev session : SessionInfo
session = record { access_token = codes "t"; soundcloud_user_id = some (codes "7") }

-- The table of premium users does not answer.
abbrev pg : Pg
pg = record { get_session = λ id. found session; is_premium = λ urn. none }

abbrev no_row : Lookup
no_row = record { asked_at = 50; cached = none; head = none }

abbrev query : StreamQuery
query = record { hq = none; session_id = none }

abbrev start : World
start = record { asked = []; storage = full }

abbrev answer : Header
answer = value (codes "s")

abbrev streams : ScStreams
streams = record {
  hls_aac_160_url = some (codes "h/preview/1");
  http_mp3_128_url = some (codes "h/2");
  hls_mp3_128_url = none;
}

-- The first token fails, and that of another session does not. The file comes by the proxy alone.
abbrev requests : Requests
requests = record {
  proxy_fallback = true;
  has_proxy = true;
  count = 1;
  get = λ token. if text_eq token (codes "a") then no_answer else answered 200 (some streams);
  sessions = some (codes "b" ∷ []);
  by_proxy = none;
}

abbrev by_proxy_alone : Download
by_proxy_alone c direct = if direct then none else some (codes "bytes", c.2)

file_by_proxy :
    try_oauth_stream requests by_proxy_alone (codes "a") false
    ≡ some (codes "bytes", codes "audio/mpeg")
unfolding try_oauth_stream get_streams by_sessions by_tokens fetch_streams_direct_once text_eq
    candidates offered contains starts_with try_formats try_format
file_by_proxy = refl

abbrev plain_one : Transcoding
plain_one = record { url = codes "h/1"; quality = some (codes "hq"); format = none }

abbrev encrypted_one : Transcoding
encrypted_one = record {
  url = codes "h/2";
  quality = some (codes "sq");
  format = some (record { protocol = some (codes "ctr-encrypted-hls"); mime_type = none });
}

pick_encrypted-Picks_example : Picks (plain_one ∷ encrypted_one ∷ []) true (some encrypted_one)
unfolding pick_encrypted or_else find is_wanted is_encrypted is_text text_eq
pick_encrypted-Picks_example = pick_encrypted-Picks (plain_one ∷ encrypted_one ∷ []) true
