-- ===== src/Auth.antt =====
-- Authentication, src/auth/: OTP challenges, second factors, sessions and refresh tokens.
pub mod Tables
pub mod Digests
pub mod RateLimits
pub mod Guards
pub mod AccessTokens
pub mod Sessions
pub mod Otp
pub mod Mfa
pub mod Service
