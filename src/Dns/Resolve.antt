-- ===== src/Dns/Resolve.antt =====
-- clash-lib/src/app/dns/resolver/enhanced.rs: the exchange of a message, with the cache of records,
-- and the lookup of a name.
use clash_rs.Prelude.{ℕ, Bool, true, false, ◌&&◌, Option, none, some, List, [], ◌∷◌, if◌then◌else◌}
use clash_rs.Prelude.Text.{Text, codes, starts_with}
use clash_rs.Prelude.Outcome.{Outcome, ok, err, panic}
use clash_rs.Session.{IpAddr}
use clash_rs.FakeIp.{Store}
use clash_rs.Dns.{
  RecordType, type_aaaa, type_txt, RecordData, Query, Message, is_ip_request, ip_list_of_message,
  response_to,
}
use clash_rs.Dns.Enhanced.{
  DnsError, invalid_query, invalid_domain, no_record, EnhancedResolver, Lru, State, Reply,
  match_policy, ask, ip_exchange,
}

abbrev pub is_txt : RecordType → Bool
is_txt type_txt = true
is_txt t = false

abbrev pub is_aaaa : RecordType → Bool
is_aaaa type_aaaa = true
is_aaaa t = false

-- The answers that are not cached
abbrev pub is_challenge : Query → Bool
is_challenge q = is_txt q.query_type && starts_with q.name (codes "_acme-challenge.")

-- The message of `lookup_ip` for a name
abbrev pub question : Text → RecordType → Message
question name record_type = record {
  query = some (record { name = name; query_type = record_type; class_in = true });
  recursion_desired = true;
  nx_domain = false;
  answers = [];
}

abbrev pub some_ips : List IpAddr → Outcome DnsError (List IpAddr)
some_ips [] = err no_record
some_ips (ip ∷ ips) = ok (ip ∷ ips)

module _ {L : Type 0} (lru : Lru L) where
  abbrev pub cached : Option L → Query → ℕ → Option (Option (List RecordData))
  cached none q now = none
  cached (some l) q now = lru.get l q now

  abbrev pub insert_records : Query → List RecordData → ℕ → Option L → Option L
  insert_records q answers now none = none
  insert_records q answers now (some l) = some (lru.insert_records l q answers now)

module _ {Client Stats S L : Type 0} (lru : Lru L) where
  abbrev pub with_cache : ℕ → Query → Reply Client Stats S L → Reply Client Stats S L
  with_cache now q (ok m, st) =
      if is_challenge q
      then (ok m, st)
      else (ok m, record st { lru_cache = insert_records lru q m.answers now st.lru_cache })
  with_cache now q (err e, st) = (err e, st)
  with_cache now q (panic, st) = (panic, st)

module _ {Client Stats S L : Type 0} (net : ℕ → List Client → Message → Outcome DnsError Message)
    (pool : Store S) (lru : Lru L) (r : EnhancedResolver Client) where
  abbrev pub by_matched :
      Message
      → State Client Stats S L
      → Outcome DnsError (Option (List Client))
      → Reply Client Stats S L
  by_matched m st (ok (some matched)) = ask net pool r matched m st
  by_matched m st (ok none) = ask net pool r r.main m st
  by_matched m st (err e) = (err e, st)
  by_matched m st panic = (panic, st)

  unfoldable pub exchange_no_cache :
      ℕ → Query → Message → State Client Stats S L → Reply Client Stats S L
  exchange_no_cache now q m st = with_cache lru now q (
      if is_ip_request q
      then ip_exchange net pool r now m st
      else by_matched m st (match_policy r m))

  -- A cached answer is used only where recursion is not desired.
  abbrev pub by_cached :
      ℕ
      → Query
      → Message
      → State Client Stats S L
      → Option (Option (List RecordData))
      → Bool
      → Reply Client Stats S L
  by_cached now q m st (some (some records)) false = (ok (response_to m records), st)
  by_cached now q m st found recursion_desired = exchange_no_cache now q m st

  abbrev pub exchange_query :
      ℕ → Message → State Client Stats S L → Option Query → Reply Client Stats S L
  exchange_query now m st none = (err invalid_query, st)
  exchange_query now m st (some q) =
      by_cached now q m st (cached lru st.lru_cache q now) m.recursion_desired

  unfoldable pub exchange : ℕ → Message → State Client Stats S L → Reply Client Stats S L
  exchange now m st = exchange_query now m st m.query

  abbrev pub ips_of :
      Reply Client Stats S L → Outcome DnsError (List IpAddr) × State Client Stats S L
  ips_of (ok m, st) = (some_ips (ip_list_of_message m), st)
  ips_of (err e, st) = (err e, st)
  ips_of (panic, st) = (panic, st)

  abbrev pub lookup_name :
      ℕ
      → RecordType
      → State Client Stats S L
      → Option Text
      → Outcome DnsError (List IpAddr) × State Client Stats S L
  lookup_name now record_type st none = (err invalid_domain, st)
  lookup_name now record_type st (some name) = ips_of (exchange now (question name record_type) st)
