-- ===== src/Sql/Tests.antt =====
-- The SQL text functions on concrete statements.
use pinpoint_cpp_agent.Common.{◌≡◌, refl, true, false, [], ◌∷◌, codes}
use pinpoint_cpp_agent.Sql.{read_comment, decimal, parse_index}
use pinpoint_cpp_agent.Sql.Normalize.{normalize}
use pinpoint_cpp_agent.Sql.Combine.{combine_output_params}
use pinpoint_cpp_agent.Sql.Bind.{combine_bind_values}

program : Unit {0}
unfolding read_comment decimal parse_index normalize combine_output_params combine_bind_values
program = tt

select_normalized :
    normalize 2048 true (codes "SELECT * FROM t1 WHERE a=12.5 AND b='x,y' /* c */ AND d='it''s'")
    ≡ record {
      normalized_sql = codes "SELECT * FROM t1 WHERE a=0# AND b='1$'  AND d='2$'";
      parameters = codes "12.5,x,,y,it''s";
      param_index = 3;
    }
unfolding program
select_normalized = refl

comments_kept :
    (normalize 2048 false (codes "a -- 1\n/*2*/ 3")).normalized_sql ≡ codes "a -- 1\n/*2*/ 0#"
unfolding program
comments_kept = refl

params_put_back :
    combine_output_params (codes "a=0# AND b='1$' c2 9#") (codes "12" ∷ codes "x" ∷ [])
    ≡ codes "a=12 AND b='x' c2 9#"
unfolding program
params_put_back = refl

values_bound :
    combine_bind_values (codes "a=? AND b='?' AND c=? AND d=?") (codes "1" ∷ codes "2" ∷ [])
    ≡ codes "a='1' AND b='?' AND c='2' AND d="
unfolding program
values_bound = refl

-- Removing the comment between two minus signs makes the rest of the line a comment.
comment_made : (normalize 2048 true (codes "5-/* */-x")).normalized_sql ≡ codes "0#--x"
unfolding program
comment_made = refl
