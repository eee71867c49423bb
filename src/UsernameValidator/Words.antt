-- ===== src/UsernameValidator/Words.antt =====
-- The word lists of backend/src/utils/username-validator.ts.
use nova_support.Base.{List, [], ◌∷◌, String}

unfoldable pub reserved_words : List String
reserved_words =
    "admin" ∷ "api" ∷ "support" ∷ "system" ∷ "moderator" ∷ "root" ∷ "app" ∷ "dashboard" ∷ "profile"
    ∷ "create" ∷ "explore" ∷ "settings" ∷ "wallet" ∷ "transactions" ∷ "analytics" ∷ "webhook"
    ∷ "callback" ∷ "notify" ∷ "payment" ∷ "sponsor" ∷ "sponsor-page" ∷ "about" ∷ "contact" ∷ "help"
    ∷ "terms" ∷ "privacy" ∷ "tos" ∷ "admin-panel" ∷ "docs" ∷ "api-docs" ∷ "health" ∷ "status"
    ∷ "login" ∷ "logout" ∷ "auth" ∷ "verify" ∷ "unsubscribe" ∷ "billing" ∷ "upgrade" ∷ "downgrade"
    ∷ "import" ∷ "export" ∷ "archive" ∷ "delete" ∷ "restore" ∷ "report" ∷ "appeal" ∷ "block"
    ∷ "unblock" ∷ "flag" ∷ "moderate" ∷ "ban" ∷ "mute" ∷ "bot" ∷ "test" ∷ "dev" ∷ "staging"
    ∷ "production" ∷ []

-- The alternatives of the filter, in its order.
unfoldable pub profanity_filter : List String
profanity_filter =
    "ass" ∷ "asshole" ∷ "bitch" ∷ "bitches" ∷ "crap" ∷ "damn" ∷ "dammit" ∷ "dammits" ∷ "damn"
    ∷ "fart" ∷ "farts" ∷ "farted" ∷ "farthed" ∷ "farthing" ∷ "farting" ∷ "farts" ∷ "gag" ∷ "gags"
    ∷ "gagged" ∷ "gagging" ∷ "god" ∷ "goddam" ∷ "goddamn" ∷ "goddamned" ∷ "goddamner" ∷ "goddamners"
    ∷ "goddamning" ∷ "goddamns" ∷ "goddamner" ∷ "goddamners" ∷ "goddamning" ∷ "goddamns"
    ∷ "godsdamn" ∷ "godsake" ∷ "hell" ∷ "hells" ∷ "hitter" ∷ "hitters" ∷ "horseshit" ∷ "horseshits"
    ∷ "jackass" ∷ "jackasses" ∷ "jerk" ∷ "jerks" ∷ "jerked" ∷ "jerking" ∷ "jerkings" ∷ "jerks"
    ∷ "motherfucker" ∷ "motherfuckers" ∷ "motherfucking" ∷ "motherfuckings" ∷ "piss" ∷ "pissed"
    ∷ "pisser" ∷ "pissers" ∷ "pisses" ∷ "pissing" ∷ "pissy" ∷ "shit" ∷ "shits" ∷ "shitted"
    ∷ "shitter" ∷ "shitters" ∷ "shitting" ∷ "shittings" ∷ "shitty" ∷ "whore" ∷ "whores" ∷ "whored"
    ∷ "whoring" ∷ "suck" ∷ "sucks" ∷ "sucked" ∷ "sucker" ∷ "suckers" ∷ "sucking" ∷ "suckings"
    ∷ "tit" ∷ "tits" ∷ "titted" ∷ "titting" ∷ "tittings" ∷ "tittish" ∷ "titty" ∷ []
