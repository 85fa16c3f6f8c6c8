-- ===== src/IgnoreRules/Tests.antt =====
-- plugin/src/core/IgnoreRules.cpp on concrete rules.
use notepadpp_sync.Prelude.{
  ◌≡◌, refl, arith, Bool, true, false, some, [], ◌∷◌, codes, getlines, attach, contains, lower,
  to_lower, after_last, str_eq, cmp, drop_back,
}
use notepadpp_sync.IgnoreRules.{
  Rule, is_blank, trim_front, trim, ends_with, pop_back, rule_anchored, rule_body, rule_of_trimmed,
  rules_of_lines, parse, parents, match_candidate, match_candidates, match_rule,
}
use notepadpp_sync.IgnoreRules.Glob.{
  only_stars, takes, behind_stars, opens, advance, tail, glob_round, glob_loop, glob_match,
}
use notepadpp_sync.IgnoreRules.Termination.{glob_match_returns}
use notepadpp_sync.IgnoreRules.Soundness.{Globs, empty, same, star, stars_slash, glob_match-Globs}

glob_match_returns_example : (b : Bool) × (glob_match (codes "**/*.bak") (codes "a/b.bak") ≡ some b)
glob_match_returns_example = glob_match_returns (codes "**/*.bak") (codes "a/b.bak")

accepts_test : glob_match (codes "src/**.bak") (codes "src/a/c.bak") ≡ some true
unfolding glob_match glob_loop glob_round only_stars takes behind_stars opens advance tail
accepts_test = refl

glob_match-Globs_example : Globs (codes "src/**.bak") (codes "src/a/c.bak")
glob_match-Globs_example = glob_match-Globs (codes "src/**.bak") (codes "src/a/c.bak") accepts_test

-- `globMatch` never returns to `**` behind a later `*`: it refuses a text that the pattern stands for.
refused_test :
    (glob_match (codes "**/*.bak") (codes "a/c.bak") ≡ some false)
    × Globs (codes "**/*.bak") (codes "a/c.bak")
unfolding glob_match glob_loop glob_round only_stars takes behind_stars opens advance tail
refused_test = (
  refl,
  stars_slash (codes "a/") (
      star (codes "c") ((λ q. omega arith), tt)
        (same b'.' (same b'b' (same b'a' (same b'k' empty))))),
)

abbrev modules : Rule
modules = record {
  pattern = codes "node_modules";
  negate = false;
  dir_only = true;
  anchored = false;
}

abbrev keep_logs : Rule
keep_logs = record { pattern = codes "*.log"; negate = true; dir_only = false; anchored = false }

parse_test : parse (codes "# tools\nNode_Modules/ \r\n\n! *.log\n/\n") ≡ modules ∷ keep_logs ∷ []
unfolding parse rules_of_lines rule_of_trimmed rule_body rule_anchored trim trim_front is_blank
    ends_with pop_back getlines attach lower to_lower drop_back str_eq cmp
parse_test = refl

folder_test : match_rule modules (codes "web/node_modules") true ≡ some true
unfolding match_rule match_candidates match_candidate parents contains after_last glob_match
    glob_loop glob_round only_stars takes behind_stars opens advance tail str_eq cmp
folder_test = refl
