-- ===== src/Csp/Tests.antt =====
-- src/services/csp-policy.ts: a header that the parser and the edits run on.
use couch_companion_ui.Prelude.{
  List, ◌≡◌, refl, true, false, none, some, [], ◌∷◌, ◌++◌, Text, codes, is_space, if◌then◌else◌,
  ◌===◌, text_eq, trim,
}
use couch_companion_ui.Csp.{parse_csp, serialise_csp, make_directive}
use couch_companion_ui.Csp.Scan.{scan_csp}
use couch_companion_ui.Csp.Parse.{parse_csp-scan, serialise-parse}
use couch_companion_ui.Csp.Edit.{
  append_directive, remove_directive, connect_sources, add_connect_src_origins,
  remove_connect_src_origins, set_unsafe_eval, script_src_allows_eval, drop_value,
}
use couch_companion_ui.SingleServer.{Url, Platform}
use couch_companion_ui.Csp.Values.{IsWord}
use couch_companion_ui.Csp.Edit.Origins.{connect_sources-add}
use couch_companion_ui.Csp.Edit.Others.{others, others-add_origins}
use couch_companion_ui.Csp.Edit.Words.{add_all}
use couch_companion_ui.Csp.Allowed.{
  missing_origins, is_origin_allowed, host_source_matches, in_scheme, required_git_origins,
  build_csp_curl,
}
use couch_companion_ui.Csp.Allowed.Origins.{IsOrigin, missing_origins-add}

abbrev plain_header : Text
plain_header = codes " default-src 'self';; img-src *  data: ;"

abbrev github : Text
github = codes "https://api.github.com"

parse_csp-scan_example : parse_csp plain_header ≡ scan_csp plain_header
parse_csp-scan_example = parse_csp-scan plain_header

serialise-parse_example : serialise_csp (parse_csp plain_header) ≡ plain_header
serialise-parse_example = serialise-parse plain_header

removed_directive :
    remove_directive 2 (
      append_directive
        (make_directive (codes "connect-src 'self'") [])
        (parse_csp plain_header).directives)
    ≡ (parse_csp plain_header).directives
unfolding parse_csp make_directive is_space
removed_directive = refl

added_header :
    add_connect_src_origins plain_header (github ∷ github ∷ [])
    ≡ codes " default-src 'self';; img-src *  data:;; connect-src 'self' https://api.github.com ;"
unfolding add_connect_src_origins parse_csp serialise_csp make_directive is_space
added_header = refl

removed_header :
    remove_connect_src_origins (add_connect_src_origins plain_header (github ∷ [])) (github ∷ [])
    ≡ plain_header
unfolding add_connect_src_origins remove_connect_src_origins drop_value parse_csp serialise_csp
    make_directive is_space
removed_header = refl

-- An origin that the fallback already names: what was added is not taken away as a whole.
abbrev seeded_header : Text
seeded_header = codes "default-src 'self' https://api.github.com"

left_behind :
    remove_connect_src_origins (add_connect_src_origins seeded_header (github ∷ [])) (github ∷ [])
    ≡ codes "default-src 'self' https://api.github.com; connect-src 'self'"
unfolding add_connect_src_origins remove_connect_src_origins drop_value parse_csp serialise_csp
    make_directive is_space
left_behind = refl

eval_forbidden :
    set_unsafe_eval (codes "script-src 'self' 'unsafe-eval'; img-src *") false
    ≡ codes "script-src 'self'; img-src *"
unfolding set_unsafe_eval drop_value parse_csp serialise_csp make_directive is_space
eval_forbidden = refl

eval_allowed : script_src_allows_eval (set_unsafe_eval plain_header true) ≡ true
unfolding script_src_allows_eval set_unsafe_eval parse_csp serialise_csp make_directive is_space
eval_allowed = refl

abbrev github_url : Url
github_url = record {
  protocol = codes "https:";
  hostname = codes "api.github.com";
  port = [];
  host = codes "api.github.com";
  origin = github;
  pathname = codes "/";
  href = codes "https://api.github.com/";
}

abbrev github_only : Platform
github_only = record {
  parse_url = λ t. if t === github then some github_url else none;
  decode_component = λ t. some t;
}

github-IsWord : IsWord github
unfolding is_space
github-IsWord = (refl, refl, refl)

github-IsOrigin : IsOrigin github_only github
github-IsOrigin = record {
  scheme = codes "https";
  target = github_url;
  word = github-IsWord;
  parsed = refl;
  text = refl;
  protocol = refl;
  some_scheme = refl;
  letters = refl;
  host_part = refl;
  host_lower = refl;
  host_star = refl;
  port_part = refl;
}

others-add_origins_example :
    others (parse_csp (add_connect_src_origins plain_header (github ∷ []))).directives
    ≡ others (parse_csp plain_header).directives
others-add_origins_example = others-add_origins plain_header (github ∷ []) (github-IsWord, tt)

connect_sources-add_example :
    ((values : List Text)
      → connect_sources plain_header ≡ some values
      → connect_sources (add_connect_src_origins plain_header (github ∷ github ∷ []))
        ≡ some (add_all (github ∷ github ∷ []) values))
    × (connect_sources plain_header ≡ none
        → connect_sources (add_connect_src_origins plain_header (github ∷ github ∷ []))
          ≡ some (add_all (github ∷ github ∷ []) []))
connect_sources-add_example =
    connect_sources-add plain_header (github ∷ github ∷ []) (github-IsWord, (github-IsWord, tt))

missing_origins-add_example :
    missing_origins github_only
      (add_connect_src_origins plain_header (github ∷ []))
      (github ∷ [])
      none
    ≡ []
missing_origins-add_example =
    missing_origins-add github_only plain_header (github ∷ []) none (github-IsOrigin, tt)

missing_before : missing_origins github_only plain_header (github ∷ []) none ≡ github ∷ []
unfolding missing_origins is_origin_allowed host_source_matches in_scheme connect_sources parse_csp
    make_directive is_space
missing_before = refl

wildcard_host : host_source_matches (codes "HTTPS://*.github.com:*/x") github_url ≡ true
unfolding host_source_matches in_scheme
wildcard_host = refl

other_port : host_source_matches (codes "https://api.github.com:8443") github_url ≡ false
unfolding host_source_matches in_scheme
other_port = refl

-- The pieces of an IPv6 host are cut at its colons.
no_ipv6 :
    host_source_matches (codes "http://[::1]:5984") (record github_url {
      protocol = codes "http:";
      hostname = codes "[::1]";
      port = codes "5984";
    })
    ≡ false
unfolding host_source_matches in_scheme
no_ipv6 = refl

git_origins :
    required_git_origins github_only (
      none
      ∷ some (codes "  ")
      ∷ some (codes "nowhere")
      ∷ some (codes " https://api.github.com ")
      ∷ [])
    ≡ github ∷ []
unfolding required_git_origins trim is_space
git_origins = refl

csp_curl :
    build_csp_curl (λ t. b'"' ∷ t ++ codes "\"") (codes "http://db/") (codes "x")
    ≡ codes "curl -u admin:password -X PUT \\"
      ++ 10 ∷ codes "  http://db/_node/_local/_config/csp/utils_header_value \\"
      ++ 10 ∷ codes "  -H 'Content-Type: application/json' \\"
      ++ 10 ∷ codes "  --data-binary @- <<'JSON'"
      ++ 10 ∷ codes "\"x\""
      ++ 10 ∷ codes "JSON"
unfolding build_csp_curl
csp_curl = refl
