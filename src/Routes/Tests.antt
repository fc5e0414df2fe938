-- ===== src/Routes/Tests.antt =====
-- A link of the schedule form, and hashes that lead nowhere.
use ai_erp.Base.{◌≡◌, refl, some}
use ai_erp.Base.Text.{codes, text_eq, strip_prefix, span, is_id_char}
use ai_erp.Routes.{
  schedule_edit, not_found, route_of, screen_of, before_mark, after_mark, take_id, invite_token,
  join_code, project_match, is_code_char, upper, strip_any_case, join,
}
use ai_erp.Routes.Links.{link_of, has_link, path_of}
use ai_erp.Routes.RoundTrip.{route_of-link_of}

edit_link :
    link_of (schedule_edit (codes "p") (codes "s1") (codes "view=week"))
    ≡ codes "#/projects/p/schedules/s1/edit?view=week"
unfolding path_of
edit_link = refl

no_screen : route_of (codes "#/projects/p q") ≡ not_found
unfolding route_of screen_of before_mark after_mark text_eq strip_prefix span is_id_char take_id
    invite_token join_code project_match strip_any_case upper
no_screen = refl

route_of-link_of_example :
    route_of (link_of (schedule_edit (codes "p") (codes "s1") (codes "view=week")))
    ≡ schedule_edit (codes "p") (codes "s1") (codes "view=week")
unfolding has_link is_id_char
route_of-link_of_example =
    route_of-link_of (schedule_edit (codes "p") (codes "s1") (codes "view=week")) refl

-- A code with letters that the class of the expression leaves out.
any_letter : join_code (codes "/join/ILOUilou00000000") ≡ some (codes "ILOUILOU00000000")
unfolding join_code strip_any_case is_code_char upper
any_letter = refl

-- The path of a join link in capital letters.
join_capitals : route_of (codes "#/JOIN/abcdefgh01234567") ≡ join (codes "ABCDEFGH01234567")
unfolding route_of screen_of before_mark after_mark strip_prefix invite_token join_code
    strip_any_case is_code_char upper
join_capitals = refl
