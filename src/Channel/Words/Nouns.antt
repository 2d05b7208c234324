-- ===== src/Channel/Words/Nouns.antt =====
-- internal/channel/wordlist.go: the nouns.
use peerbus.Prelude.{Text, text, List, [], ◌∷◌}

unfoldable pub name_nouns : List Text
name_nouns =
    text "acorn"
    ∷ text "albatross"
    ∷ text "alder"
    ∷ text "alpaca"
    ∷ text "amber"
    ∷ text "anchor"
    ∷ text "antler"
    ∷ text "apricot"
    ∷ text "arrow"
    ∷ text "ash"
    ∷ text "aspen"
    ∷ text "auk"
    ∷ text "aurora"
    ∷ text "axis"
    ∷ text "azalea"
    ∷ text "badger"
    ∷ text "bamboo"
    ∷ text "banner"
    ∷ text "barley"
    ∷ text "basil"
    ∷ text "beacon"
    ∷ text "beaver"
    ∷ text "beetle"
    ∷ text "bell"
    ∷ text "birch"
    ∷ text "bison"
    ∷ text "blossom"
    ∷ text "bluebell"
    ∷ text "bobcat"
    ∷ text "boulder"
    ∷ text "brambler"
    ∷ text "branch"
    ∷ text "brook"
    ∷ text "buffalo"
    ∷ text "bumble"
    ∷ text "burrow"
    ∷ text "cabin"
    ∷ text "cactus"
    ∷ text "calla"
    ∷ text "camel"
    ∷ text "candle"
    ∷ text "canyon"
    ∷ text "cardinal"
    ∷ text "cedar"
    ∷ text "chamois"
    ∷ text "cheetah"
    ∷ text "cherry"
    ∷ text "chestnut"
    ∷ text "cinder"
    ∷ text "clover"
    ∷ text "coast"
    ∷ text "cobalt"
    ∷ text "comet"
    ∷ text "compass"
    ∷ text "condor"
    ∷ text "coral"
    ∷ text "cottage"
    ∷ text "cougar"
    ∷ text "coyote"
    ∷ text "cranberry"
    ∷ text "crocus"
    ∷ text "cypress"
    ∷ text "daisy"
    ∷ text "dandelion"
    ∷ text "deer"
    ∷ text "delta"
    ∷ text "dingo"
    ∷ text "dolphin"
    ∷ text "dragonfly"
    ∷ text "drift"
    ∷ text "dune"
    ∷ text "eagle"
    ∷ text "ember"
    ∷ text "emu"
    ∷ text "estuary"
    ∷ text "falcon"
    ∷ text "fawn"
    ∷ text "fennec"
    ∷ text "fern"
    ∷ text "ferret"
    ∷ text "field"
    ∷ text "finch"
    ∷ text "firefly"
    ∷ text "flamingo"
    ∷ text "flax"
    ∷ text "fjord"
    ∷ text "foxglove"
    ∷ text "frost"
    ∷ text "galaxy"
    ∷ text "garnet"
    ∷ text "gazelle"
    ∷ text "gecko"
    ∷ text "gem"
    ∷ text "geyser"
    ∷ text "ginger"
    ∷ text "glacier"
    ∷ text "glade"
    ∷ text "gleam"
    ∷ text "globe"
    ∷ text "gopher"
    ∷ text "granite"
    ∷ text "grebe"
    ∷ text "grove"
    ∷ text "gull"
    ∷ text "harbor"
    ∷ text "harmony"
    ∷ text "harvest"
    ∷ text "hawk"
    ∷ text "haven"
    ∷ text "hazel"
    ∷ text "heath"
    ∷ text "heron"
    ∷ text "hill"
    ∷ text "hollow"
    ∷ text "honey"
    ∷ text "hornbill"
    ∷ text "horizon"
    ∷ text "iris"
    ∷ text "ivory"
    ∷ text "ivy"
    ∷ text "jackal"
    ∷ text "jasper"
    ∷ text "jay"
    ∷ text "junco"
    ∷ text "juniper"
    ∷ text "kelp"
    ∷ text "kestrel"
    ∷ text "kingfisher"
    ∷ text "kit"
    ∷ text "koala"
    ∷ text "lagoon"
    ∷ text "lantern"
    ∷ text "lark"
    ∷ text "lavender"
    ∷ text "leaf"
    ∷ text "lemur"
    ∷ text "lichen"
    ∷ text "lighthouse"
    ∷ text "lily"
    ∷ text "lime"
    ∷ text "linden"
    ∷ text "lion"
    ∷ text "lupine"
    ∷ text "lynx"
    ∷ text "magnolia"
    ∷ text "mallow"
    ∷ text "maple"
    ∷ text "marigold"
    ∷ text "marmot"
    ∷ text "marsh"
    ∷ text "meadow"
    ∷ text "mesa"
    ∷ text "midge"
    ∷ text "mink"
    ∷ text "minnow"
    ∷ text "mirage"
    ∷ text "moose"
    ∷ text "morel"
    ∷ text "moth"
    ∷ text "mountain"
    ∷ text "muffin"
    ∷ text "narwhal"
    ∷ text "nebula"
    ∷ text "newt"
    ∷ text "nimbus"
    ∷ text "nook"
    ∷ text "nova"
    ∷ text "oak"
    ∷ text "oasis"
    ∷ text "ocelot"
    ∷ text "ocean"
    ∷ text "olive"
    ∷ text "onyx"
    ∷ text "opal"
    ∷ text "orca"
    ∷ text "orchard"
    ∷ text "orchid"
    ∷ text "osprey"
    ∷ text "otter"
    ∷ text "owl"
    ∷ text "panda"
    ∷ text "pansy"
    ∷ text "panther"
    ∷ text "parrot"
    ∷ text "partridge"
    ∷ text "pebble"
    ∷ text "pelican"
    ∷ text "petal"
    ∷ text "phoenix"
    ∷ text "pika"
    ∷ text "pine"
    ∷ text "plover"
    ∷ text "plum"
    ∷ text "pollen"
    ∷ text "pond"
    ∷ text "poppy"
    ∷ text "prairie"
    ∷ text "puffin"
    ∷ text "quail"
    ∷ text "quartz"
    ∷ text "quokka"
    ∷ text "rabbit"
    ∷ text "raccoon"
    ∷ text "raven"
    ∷ text "reef"
    ∷ text "reindeer"
    ∷ text "ridge"
    ∷ text "river"
    ∷ text "robin"
    ∷ text "rookery"
    ∷ text "rose"
    ∷ text "sage"
    ∷ text "salmon"
    ∷ text "satellite"
    ∷ text "savanna"
    ∷ text "seal"
    ∷ text "sequoia"
    ∷ text "shore"
    ∷ text "shrike"
    ∷ text "skunk"
    ∷ text "skyline"
    ∷ text "sparrow"
    ∷ text "spire"
    ∷ text "starling"
    ∷ text "stork"
    ∷ text "stream"
    ∷ text "summit"
    ∷ text "swan"
    ∷ text "tamarack"
    ∷ text "teak"
    ∷ text "thicket"
    ∷ text "thistle"
    ∷ text "tortoise"
    ∷ text "tulip"
    ∷ text "tundra"
    ∷ text "valley"
    ∷ text "vega"
    ∷ text "violet"
    ∷ text "vista"
    ∷ text "vixen"
    ∷ text "wallaby"
    ∷ text "warbler"
    ∷ text "waterfall"
    ∷ text "willow"
    ∷ text "wolf"
    ∷ text "wombat"
    ∷ text "woodland"
    ∷ text "wren"
    ∷ text "yarrow"
    ∷ text "yew"
    ∷ text "zebra"
    ∷ text "zephyr"
    ∷ text "zinnia"
    ∷ []
