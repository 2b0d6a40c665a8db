-- ===== src/Limits/Tests.antt =====
-- An old bookmark without a bound, and the theorem at it.
use titra.Common.{◌-◌, ◌*◌, ◌≡◌, refl, false, some, codes, beq_list}
use titra.Limits.{
  string, integer, max_working_time_rows, max_resource_page, normalize_limit_parameter,
  normalize_page_parameter, normalize_bounded_pagination, normalize_detailed_pagination,
}
use titra.Limits.Accepted.{normalized-accepted}

old_bookmark : normalize_limit_parameter (string (codes "-1")) ≡ 500
unfolding normalize_limit_parameter beq_list
old_bookmark = refl

third_page : normalize_page_parameter (string (codes "3")) ≡ 3
unfolding normalize_page_parameter
third_page = refl

normalized-accepted_example :
    (normalize_bounded_pagination
        (integer false (normalize_limit_parameter (string (codes "-1"))))
        (integer false (normalize_page_parameter (string (codes "3"))))
        max_working_time_rows
        max_resource_page
      ≡ some (record {
        limit = normalize_limit_parameter (string (codes "-1"));
        page = normalize_page_parameter (string (codes "3"));
        skip =
            (normalize_page_parameter (string (codes "3")) - 1)
            * normalize_limit_parameter (string (codes "-1"));
      }))
    × (normalize_detailed_pagination
          (integer false (normalize_limit_parameter (string (codes "-1"))))
          (integer false (normalize_page_parameter (string (codes "3"))))
        ≡ some (
          some (normalize_limit_parameter (string (codes "-1"))),
          (normalize_page_parameter (string (codes "3")) - 1)
              * normalize_limit_parameter (string (codes "-1")),
        ))
normalized-accepted_example = normalized-accepted (string (codes "-1")) (string (codes "3"))
