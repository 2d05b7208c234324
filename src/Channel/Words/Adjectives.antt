-- ===== src/Channel/Words/Adjectives.antt =====
-- internal/channel/wordlist.go: the adjectives.
use peerbus.Prelude.{Text, text, List, [], ◌∷◌}

unfoldable pub name_adjectives : List Text
name_adjectives =
    text "agile"
    ∷ text "amber"
    ∷ text "ancient"
    ∷ text "azure"
    ∷ text "balmy"
    ∷ text "bashful"
    ∷ text "blissful"
    ∷ text "bold"
    ∷ text "bouncy"
    ∷ text "brave"
    ∷ text "breezy"
    ∷ text "bright"
    ∷ text "brisk"
    ∷ text "bronze"
    ∷ text "bubbly"
    ∷ text "calm"
    ∷ text "candid"
    ∷ text "careful"
    ∷ text "cheerful"
    ∷ text "chipper"
    ∷ text "clever"
    ∷ text "cosy"
    ∷ text "cool"
    ∷ text "copper"
    ∷ text "cosmic"
    ∷ text "crimson"
    ∷ text "crisp"
    ∷ text "curious"
    ∷ text "daring"
    ∷ text "dapper"
    ∷ text "dawn"
    ∷ text "dazzling"
    ∷ text "deft"
    ∷ text "dewy"
    ∷ text "diligent"
    ∷ text "dreamy"
    ∷ text "dusky"
    ∷ text "eager"
    ∷ text "earnest"
    ∷ text "easy"
    ∷ text "elated"
    ∷ text "electric"
    ∷ text "elegant"
    ∷ text "emerald"
    ∷ text "epic"
    ∷ text "exotic"
    ∷ text "fair"
    ∷ text "fancy"
    ∷ text "feisty"
    ∷ text "fearless"
    ∷ text "festive"
    ∷ text "fiery"
    ∷ text "flaxen"
    ∷ text "fleecy"
    ∷ text "fleet"
    ∷ text "fluffy"
    ∷ text "flying"
    ∷ text "forest"
    ∷ text "fresh"
    ∷ text "friendly"
    ∷ text "frosty"
    ∷ text "funny"
    ∷ text "gallant"
    ∷ text "gentle"
    ∷ text "giddy"
    ∷ text "gilded"
    ∷ text "glassy"
    ∷ text "gleaming"
    ∷ text "glowing"
    ∷ text "golden"
    ∷ text "graceful"
    ∷ text "grand"
    ∷ text "grateful"
    ∷ text "grassy"
    ∷ text "happy"
    ∷ text "hardy"
    ∷ text "harmonic"
    ∷ text "hazel"
    ∷ text "hearty"
    ∷ text "heroic"
    ∷ text "honest"
    ∷ text "humble"
    ∷ text "icy"
    ∷ text "indigo"
    ∷ text "jade"
    ∷ text "jaunty"
    ∷ text "jolly"
    ∷ text "joyful"
    ∷ text "jovial"
    ∷ text "keen"
    ∷ text "kind"
    ∷ text "lavender"
    ∷ text "lean"
    ∷ text "light"
    ∷ text "lilac"
    ∷ text "limber"
    ∷ text "limpid"
    ∷ text "lively"
    ∷ text "loyal"
    ∷ text "lucky"
    ∷ text "lumen"
    ∷ text "lunar"
    ∷ text "marble"
    ∷ text "mellow"
    ∷ text "merry"
    ∷ text "midnight"
    ∷ text "mighty"
    ∷ text "mild"
    ∷ text "mindful"
    ∷ text "minty"
    ∷ text "misty"
    ∷ text "modest"
    ∷ text "mossy"
    ∷ text "mythic"
    ∷ text "nautical"
    ∷ text "neat"
    ∷ text "nimble"
    ∷ text "noble"
    ∷ text "north"
    ∷ text "olive"
    ∷ text "opal"
    ∷ text "orange"
    ∷ text "outer"
    ∷ text "pacific"
    ∷ text "patient"
    ∷ text "peachy"
    ∷ text "pearl"
    ∷ text "perky"
    ∷ text "placid"
    ∷ text "plucky"
    ∷ text "plum"
    ∷ text "polar"
    ∷ text "polished"
    ∷ text "prairie"
    ∷ text "prancing"
    ∷ text "primal"
    ∷ text "proper"
    ∷ text "proud"
    ∷ text "prudent"
    ∷ text "quaint"
    ∷ text "quick"
    ∷ text "quiet"
    ∷ text "quirky"
    ∷ text "radiant"
    ∷ text "rapid"
    ∷ text "raven"
    ∷ text "ready"
    ∷ text "regal"
    ∷ text "ringed"
    ∷ text "river"
    ∷ text "robust"
    ∷ text "rosy"
    ∷ text "ruby"
    ∷ text "rugged"
    ∷ text "rustic"
    ∷ text "sable"
    ∷ text "sacred"
    ∷ text "salty"
    ∷ text "sandy"
    ∷ text "sapphire"
    ∷ text "savvy"
    ∷ text "scarlet"
    ∷ text "scenic"
    ∷ text "secret"
    ∷ text "serene"
    ∷ text "shady"
    ∷ text "sharp"
    ∷ text "shimmer"
    ∷ text "shiny"
    ∷ text "silent"
    ∷ text "silken"
    ∷ text "silver"
    ∷ text "skyward"
    ∷ text "sleek"
    ∷ text "smart"
    ∷ text "smiling"
    ∷ text "smoky"
    ∷ text "smooth"
    ∷ text "snowy"
    ∷ text "soaring"
    ∷ text "solar"
    ∷ text "solid"
    ∷ text "sound"
    ∷ text "south"
    ∷ text "sparkly"
    ∷ text "spirited"
    ∷ text "spry"
    ∷ text "stalwart"
    ∷ text "starry"
    ∷ text "steady"
    ∷ text "stellar"
    ∷ text "stoic"
    ∷ text "stout"
    ∷ text "summery"
    ∷ text "sunlit"
    ∷ text "sunny"
    ∷ text "super"
    ∷ text "swift"
    ∷ text "tangy"
    ∷ text "teal"
    ∷ text "tender"
    ∷ text "thrifty"
    ∷ text "tidy"
    ∷ text "tidal"
    ∷ text "timely"
    ∷ text "tranquil"
    ∷ text "trusty"
    ∷ text "twilight"
    ∷ text "vast"
    ∷ text "velvet"
    ∷ text "verdant"
    ∷ text "vibrant"
    ∷ text "vigil"
    ∷ text "vintage"
    ∷ text "violet"
    ∷ text "vivid"
    ∷ text "warm"
    ∷ text "wandering"
    ∷ text "wavy"
    ∷ text "whimsical"
    ∷ text "wild"
    ∷ text "willing"
    ∷ text "windswept"
    ∷ text "winsome"
    ∷ text "wise"
    ∷ text "witty"
    ∷ text "woolen"
    ∷ text "yonder"
    ∷ text "youthful"
    ∷ text "zealous"
    ∷ text "zen"
    ∷ text "zesty"
    ∷ []
