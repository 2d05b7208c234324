-- ===== src/Channel/Words.antt =====
-- internal/channel/wordlist.go: the words that names are made of.
pub mod Adjectives
pub mod Nouns
