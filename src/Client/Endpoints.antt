-- ===== src/Client/Endpoints.antt =====
-- The calls of web/packages/api-client/src/auth.ts, leads.ts, partners.ts and programs.ts.
use indica_ai.Prelude.{
  Option, none, some, List, [], ◌∷◌, ◌++◌, String, Text, codes, str_eq, if◌then◌else◌,
}
use indica_ai.Js.Params.{Params, set}
use indica_ai.Http.{with_query}
use indica_ai.Client.{Call, client_get, client_post, client_patch, client_delete}
use indica_ai.Client.Types

-- authApi
login : Types.LoginRequest → Call Types.LoginRequest Types.LoginResponse
login credentials = client_post (codes "/auth/login") (some credentials)

logout : Call (Unit {0}) (Unit {0})
logout = client_post (codes "/auth/logout") none

session : Call (Unit {0}) Types.User
session = client_get (codes "/auth/me")

request_magic_link : String → Call (List (String × String)) (Unit {0})
request_magic_link email = client_post (codes "/auth/magic-link") (some (("email", email) ∷ []))

verify_magic_link : String → Call (List (String × String)) Types.LoginResponse
verify_magic_link token =
    client_post (codes "/auth/magic-link/verify") (some (("token", token) ∷ []))

-- leadsApi
abbrev lead_status : Types.LeadStatus → String
lead_status Types.LeadStatus.new = "new"
lead_status Types.LeadStatus.in_progress = "in_progress"
lead_status Types.LeadStatus.qualified = "qualified"
lead_status Types.LeadStatus.closed = "closed"
lead_status Types.LeadStatus.lost = "lost"

-- `if (filters?.x) params.set(...)`: an empty text is left out.
abbrev set_text : String → Option String → Params → Params
set_text key none params = params
set_text key (some v) params = if str_eq v "" then params else set key (codes v) params

abbrev set_status : Option Types.LeadStatus → Params → Params
set_status none params = params
set_status (some s) params = set "status" (codes (lead_status s)) params

unfoldable pub leads_params : Option String → Option Types.LeadStatus → Option String → Params
leads_params program_id status partner_id =
    set_text "partnerId" partner_id (set_status status (set_text "programId" program_id []))

unfoldable pub leads_list :
    Option String → Option Types.LeadStatus → Option String → Call (Unit {0}) (List Types.Lead)
unfolding leads_params
leads_list program_id status partner_id =
    client_get (with_query (codes "/leads") (leads_params program_id status partner_id))

leads_get : String → Call (Unit {0}) Types.Lead
leads_get id = client_get (codes "/leads/" ++ codes id)

leads_create : Types.CreateLeadRequest → Call Types.CreateLeadRequest Types.Lead
leads_create lead = client_post (codes "/leads") (some lead)

leads_update_status :
    String → Types.UpdateLeadStatusRequest → Call Types.UpdateLeadStatusRequest Types.Lead
leads_update_status id update =
    client_patch (codes "/leads/" ++ codes id ++ codes "/status") (some update)

leads_rewards : String → Call (Unit {0}) (List Types.Reward)
leads_rewards id = client_get (codes "/leads/" ++ codes id ++ codes "/rewards")

my_referrals : Call (Unit {0}) (List Types.Lead)
my_referrals = client_get (codes "/partners/me/referrals")

my_rewards : Call (Unit {0}) (List Types.Reward)
my_rewards = client_get (codes "/partners/me/rewards")

-- partnersApi: the program's id is put into the query as it is.
abbrev program_query : Option String → Text
program_query none = []
program_query (some id) = if str_eq id "" then [] else codes "?programId=" ++ codes id

unfoldable pub partners_list : Option String → Call (Unit {0}) (List Types.Partner)
partners_list program_id = client_get (codes "/partners" ++ program_query program_id)

partners_get : String → Call (Unit {0}) Types.Partner
partners_get id = client_get (codes "/partners/" ++ codes id)

partners_create : Types.CreatePartnerRequest → Call Types.CreatePartnerRequest Types.Partner
partners_create partner = client_post (codes "/partners") (some partner)

partners_update :
    String → Types.UpdatePartnerRequest → Call Types.UpdatePartnerRequest Types.Partner
partners_update id partner = client_patch (codes "/partners/" ++ codes id) (some partner)

partners_stats : String → Call (Unit {0}) Types.PartnerStats
partners_stats id = client_get (codes "/partners/" ++ codes id ++ codes "/stats")

partners_me : Call (Unit {0}) Types.Partner
partners_me = client_get (codes "/partners/me")

my_stats : Call (Unit {0}) Types.PartnerStats
my_stats = client_get (codes "/partners/me/stats")

-- programsApi
module _ {J : Type 0} where
  programs_list : Call (Unit {0}) (List (Types.Program J))
  programs_list = client_get (codes "/programs")

  programs_get : String → Call (Unit {0}) (Types.Program J)
  programs_get id = client_get (codes "/programs/" ++ codes id)

  programs_create :
      Types.CreateProgramRequest J → Call (Types.CreateProgramRequest J) (Types.Program J)
  programs_create program = client_post (codes "/programs") (some program)

  programs_update :
      String → Types.UpdateProgramRequest J → Call (Types.UpdateProgramRequest J) (Types.Program J)
  programs_update id program = client_patch (codes "/programs/" ++ codes id) (some program)

programs_delete : String → Call (Unit {0}) (Unit {0})
programs_delete id = client_delete (codes "/programs/" ++ codes id)
